-- ===== src/Socket/ReadLine/Bounds.antt =====
-- What holds of every end of `readLine`, and how long it waits.
use protobuf_sandbox.Prelude.{
  ℕ, ◌+◌, ◌*◌, ◌≤◌, ◌<◌, ◌≡◌, ◌≢◌, ◌⊎◌, refl, Bool, true, false, List, [], ◌∷◌, arith,
  if◌then◌else◌, length, length-append, All, All-append,
}
use protobuf_sandbox.Prelude.Int.{pos, negsuc}
use protobuf_sandbox.Socket.Types.{State}
use protobuf_sandbox.Socket.ReadLine.{
  ReadAnswer, byte, eof, would_block, Reading, LineRead, Progress, finished, waiting, read_round,
  read_loop, read_line,
}

-- A byte that does not end a line.
abbrev pub Inner : ℕ → Type 0
Inner c = (c ≢ b'\n') × (c ≢ b'\r')

-- While the loop runs, the text fits the buffer with room for a byte and holds no end of line.
pub record Open (size : ℕ) (st : Reading) : Type 0 where
  pub room : length st.text < size
  pub inner : All Inner st.text

-- At the end the text fits the buffer and holds no end of line, and `numRead` is its length, or
-- -1 with the value false.
pub record Ended (size : ℕ) (r : LineRead) : Type 0 where
  pub fits : length r.text ≤ size
  pub inner : All Inner r.text
  pub counted : (r.num_read ≡ pos (length r.text)) ⊎ ((r.num_read ≡ negsuc 0) × (r.ret ≡ false))

abbrev pub Sound : ℕ → Progress → Type 0
Sound size (finished r) = Ended size r
Sound size (waiting st) = Open size st

module _ (size full : ℕ) (stop : Bool) where
  read_round-Sound :
      (st : Reading) (a : ReadAnswer) → Open size st → Sound size (read_round size full stop st a)
  unfolding read_round
  read_round-Sound st (byte c) o =
      ground (arith, length-append st.text (c ∷ []), All-append Inner st.text (c ∷ []) o.inner)
  read_round-Sound st _ o = ground arith

  read_loop-Sound :
      (answers : List ReadAnswer) (st : Reading)
      → Open size st
      → Sound size (read_loop size full stop st answers)
  unfolding read_loop
  read_loop-Sound [] st o = o
  read_loop-Sound (a ∷ answers) st o =
      go (read_round size full stop st a) (read_round-Sound st a o)
        (λ st'. read_loop-Sound answers st')
    where
      go :
          (p : Progress)
          → Sound size p
          → ((st' : Reading) → Open size st' → Sound size (read_loop size full stop st' answers))
          → Sound size
              (elim p [ finished r ↦ finished r | waiting s ↦ read_loop size full stop s answers ])
      go (finished r) h ih = h
      go (waiting st') h ih = ih st' h

  -- With room for a byte, `readLine` never writes past its buffer, and the text holds no end of
  -- line; when it returns, `numRead` is the length of the text, or -1 with the value false.
  pub read_line-Sound :
      (state : State) (answers : List ReadAnswer)
      → 0 < size
      → Sound size (read_line size full stop state answers)
  unfolding read_line
  read_line-Sound state answers h = read_loop-Sound answers _ (record { room = h; inner = tt })

-- How often `read` had no byte to give: no data yet, or the end of a stream that is waited out.
abbrev pub is_idle : ReadAnswer → Bool
is_idle eof = true
is_idle would_block = true
is_idle _ = false

abbrev pub idle_count : List ReadAnswer → ℕ
idle_count [] = 0
idle_count (a ∷ answers) = (if is_idle a then 1 else 0) + idle_count answers

-- The microseconds that the loop may still sleep: the first byte sets the timeout anew.
abbrev budget : ℕ → Reading → ℕ
budget full st = st.left + (if st.first_char then 0 else full)

module _ (size full : ℕ) (stop : Bool) where
  read_round-budget :
      (st : Reading) (a : ReadAnswer) (st' : Reading)
      → read_round size full stop st a ≡ waiting st'
      → budget full st' + 250 * (if is_idle a then 1 else 0) ≤ budget full st
  unfolding read_round
  read_round-budget st (byte c) st' e = ground arith
  read_round-budget st _ st' e = ground arith

  read_loop-budget :
      (answers : List ReadAnswer) (st st' : Reading)
      → read_loop size full stop st answers ≡ waiting st'
      → budget full st' + 250 * idle_count answers ≤ budget full st
  unfolding read_loop
  read_loop-budget [] st st' e = ground arith
  read_loop-budget (a ∷ answers) st st' e =
      go (read_round size full stop st a) refl e (λ next. read_loop-budget answers next st')
    where
      go :
          (p : Progress)
          → read_round size full stop st a ≡ p
          → (elim p [ finished r ↦ finished r | waiting s ↦ read_loop size full stop s answers ])
            ≡ waiting st'
          → ((next : Reading)
              → read_loop size full stop next answers ≡ waiting st'
              → budget full st' + 250 * idle_count answers ≤ budget full next)
          → budget full st' + 250 * idle_count (a ∷ answers) ≤ budget full st
      go (finished r) q k ih = cc
      go (waiting next) q k ih = omega (arith, ih next k, read_round-budget st a next q)

  -- A call of `readLine` that has not returned yet has slept, 250 microseconds for each answer
  -- without a byte, for twice its timeout at most.
  pub read_line_waits :
      (state : State) (answers : List ReadAnswer) (st' : Reading)
      → read_line size full stop state answers ≡ waiting st'
      → 250 * idle_count answers ≤ 2 * full
  unfolding read_line
  read_line_waits state answers st' e = omega (arith, read_loop-budget answers _ st' e)
