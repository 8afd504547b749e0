-- ===== src/Socket/ReadLine.antt =====
-- `LinuxSocket::readLine` (src/LinuxSocket.cpp): the loop over the answers of `read`, byte by byte.
pub mod Bounds
pub mod Lines
use protobuf_sandbox.Prelude.{
  ℕ, ◌-◌, Bool, true, false, ◌||◌, List, [], ◌∷◌, ◌++◌, ◌==◌, leb, if◌then◌else◌, Bytes, length,
}
use protobuf_sandbox.Prelude.Int.{ℤ, pos, negsuc}
use protobuf_sandbox.Socket.Types.{State}

-- What one `read` of one byte answers: a byte, 0 at the end of the stream, -1 with `errno`, or more.
pub data ReadAnswer : Type 0 where
  byte : ℕ → ReadAnswer
  eof interrupted would_block failed too_many : ReadAnswer

-- `text` is the front of `rcvBuffer`, and `numRead` its length; `left` is `timeout_us`.
pub record Reading : Type 0 where
  pub text : Bytes
  pub first_char : Bool
  pub left : ℕ
  pub state : State

-- What the call leaves behind and returns.
pub record LineRead : Type 0 where
  pub text : Bytes
  pub num_read : ℤ
  pub state : State
  pub ret : Bool

pub data Progress : Type 0 where
  finished : LineRead → Progress
  waiting : Reading → Progress

abbrev pub finish : Reading → Bool → Progress
finish st ret =
    Progress.finished
      (record { text = st.text; num_read = pos (length st.text); state = st.state; ret = ret })

-- The test of the timeout at the end of a round.
unfoldable pub check_timeout : Reading → Progress
check_timeout st = if st.left == 0 then finish st (length st.text == 0) else Progress.waiting st

-- `usleep(250); timeout_us -= 250`.
abbrev pub slept : Reading → Reading
slept st = record st { left = st.left - 250 }

abbrev pub restarted : ℕ → Reading → Reading
restarted full st = if st.first_char then st else record st { first_char = true; left = full }

-- The case of one byte, in a buffer of `size` bytes, with the timeout `full`.
unfoldable pub read_byte : ℕ → ℕ → Reading → ℕ → Progress
unfolding check_timeout
read_byte size full st c =
    let st' = restarted full st in
    if c == b'\n' || c == b'\r'
    then finish st' true
    else let more = record st' { text = st'.text ++ c ∷ [] } in
      if leb size (length more.text) then finish more true else check_timeout more

-- One round of the loop.
unfoldable pub read_round : ℕ → ℕ → Bool → Reading → ReadAnswer → Progress
unfolding read_byte check_timeout
read_round size full stop st (byte c) = read_byte size full st c
read_round size full stop st eof =
    let st' = record st { state = State.no_connection } in
    if stop
    then Progress.finished
        (record { text = st.text; num_read = negsuc 0; state = State.no_connection; ret = false })
    else check_timeout (slept st')
read_round size full stop st interrupted = check_timeout st
read_round size full stop st would_block = check_timeout (slept st)
read_round size full stop st failed = finish st false
read_round size full stop st too_many = finish st false

-- The loop, as far as the answers go.
unfoldable pub read_loop : ℕ → ℕ → Bool → Reading → List ReadAnswer → Progress
unfolding read_round
read_loop size full stop st [] = Progress.waiting st
read_loop size full stop st (a ∷ later) = elim (read_round size full stop st a) [
  | Progress.finished r ↦ Progress.finished r
  | Progress.waiting st' ↦ read_loop size full stop st' later
]

-- `readLine` with a timeout of `full` microseconds, on a socket in the given state.
unfoldable pub read_line : ℕ → ℕ → Bool → State → List ReadAnswer → Progress
unfolding read_loop
read_line size full stop state answers =
    read_loop size full stop (record { text = []; first_char = false; left = full; state = state })
      answers
