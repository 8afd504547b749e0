-- ===== src/Logger.antt =====
-- The lines of src/Logger.h. What is logged is given as printed, and so is the time.

use protobuf_sandbox.Prelude.{
  list_laws, ℕ, zero, suc, ◌-◌, ◌≡◌, ap, ◌∙◌, Bool, none, some, Option, List, [], ◌∷◌, ◌++◌, Bytes,
  codes, length, if◌then◌else◌,
}

pub record Logger : Type 0 where
  pub name : Bytes
  pub debug : Bool

pub data Level : Type 0 where
  error warn info debug : Level

abbrev pub tag : Level → Bytes
tag Level.error = codes ") [ERROR] "
tag Level.warn = codes ") [WARN ] "
tag Level.info = codes ") [INFO ] "
tag Level.debug = codes ") [DEBUG] "

abbrev pub blanks : ℕ → Bytes
blanks zero = []
blanks (suc n) = 32 ∷ blanks n

-- `std::setw(16) << std::left << m_Name`.
unfoldable pub padded : Bytes → Bytes
padded name = name ++ blanks (16 - length name)

-- `getTimeStamp`; `time` is what `strftime` writes, if it does.
unfoldable pub get_time_stamp : Option Bytes → Bytes
get_time_stamp none = codes "."
get_time_stamp (some time) = time ++ codes "."

-- `Finish` on the first part and the rest.
unfoldable pub finish : Bytes → List Bytes → Bytes
finish t [] = t ++ codes "\n"
finish first (t ∷ rest) = first ++ finish t rest

unfoldable pub log_line : Level → Logger → Option Bytes → Bytes → List Bytes → Bytes
unfolding finish padded get_time_stamp
log_line level l time first rest =
    get_time_stamp time ++ (codes ": (" ++ (padded l.name ++ (tag level ++ finish first rest)))

-- `LogError`, `LogWarn`, `LogInfo` and `LogDebug`: the line for one part or more.
unfoldable pub log : Level → Logger → Option Bytes → Bytes → List Bytes → Bytes
unfolding log_line
log Level.debug l time first rest = if l.debug then log_line Level.debug l time first rest else []
log level l time first rest = log_line level l time first rest

-- The parts of a line, one behind the other.
abbrev pub joined : List Bytes → Bytes
joined [] = []
joined (t ∷ rest) = t ++ joined rest

finish-joined :
    (first : Bytes) (rest : List Bytes) → finish first rest ≡ joined (first ∷ rest) ++ codes "\n"
unfolding finish
finish-joined first [] = simp list_laws
finish-joined first (t ∷ rest) = ap (λ s. first ++ s) (finish-joined t rest) ∙ simp list_laws

log_line-joined :
    (level : Level) (l : Logger) (time : Option Bytes) (first : Bytes) (rest : List Bytes)
    → log_line level l time first rest ≡ log_line level l time (joined (first ∷ rest)) []
unfolding log_line finish
log_line-joined level l time first rest =
    ap (λ s. get_time_stamp time ++ (codes ": (" ++ (padded l.name ++ (tag level ++ s))))
      (finish-joined first rest)

-- However its parts are cut, a text is logged as the same line.
pub log-joined :
    (level : Level) (l : Logger) (time : Option Bytes) (first : Bytes) (rest : List Bytes)
    → log level l time first rest ≡ log level l time (joined (first ∷ rest)) []
unfolding log
log-joined Level.debug l time first rest =
    ap (λ s. if l.debug then s else []) (log_line-joined Level.debug l time first rest)
log-joined level l time first rest = log_line-joined level l time first rest
