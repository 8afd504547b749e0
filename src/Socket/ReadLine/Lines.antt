-- ===== src/Socket/ReadLine/Lines.antt =====
-- What `readLine` returns on a stream that holds a line.
use protobuf_sandbox.Prelude.{
  list_laws, ℕ, ◌+◌, ◌<◌, ◌≡◌, ◌⊎◌, ◌∙◌, Bool, true, false, List, [], ◌∷◌, ◌++◌, map, arith, Bytes,
  length, length-append, All,
}
use mathlib.Core.List.{append-nil}
use protobuf_sandbox.Prelude.Int.{pos}
use protobuf_sandbox.Socket.Types.{State}
use protobuf_sandbox.Socket.ReadLine.{
  ReadAnswer, byte, Reading, Progress, finished, waiting, read_round, read_loop, read_line,
}
use protobuf_sandbox.Socket.ReadLine.Bounds.{Inner}

module _ (size full : ℕ) (stop : Bool) (state : State) where
  -- The state of the loop after some text; the timeout is set anew at the first byte.
  abbrev at : Bool → Bytes → Reading
  at seen text = record { text = text; first_char = seen; left = full; state = state }

  abbrev pub line : Bytes → Progress
  line text =
      finished (record { text = text; num_read = pos (length text); state = state; ret = true })

  read_round-Inner :
      (seen : Bool) (text : Bytes) (c : ℕ)
      → 0 < full
      → Inner c
      → length text + 1 < size
      → read_round size full stop (at seen text) (byte c) ≡ waiting (at true (text ++ c ∷ []))
  unfolding read_round
  read_round-Inner seen text c h i room = ground (arith, length-append text (c ∷ []))

  read_round-last :
      (seen : Bool) (text : Bytes) (c : ℕ)
      → Inner c
      → length text + 1 ≡ size
      → read_round size full stop (at seen text) (byte c) ≡ line (text ++ c ∷ [])
  unfolding read_round
  read_round-last seen text c i room = ground (arith, length-append text (c ∷ []))

  read_round-end :
      (seen : Bool) (text : Bytes) (c : ℕ)
      → (c ≡ b'\n') ⊎ (c ≡ b'\r')
      → read_round size full stop (at seen text) (byte c) ≡ line text
  unfolding read_round
  read_round-end seen text c e = ground arith

  read_loop-line :
      (text : Bytes) (seen : Bool) (before : Bytes) (c : ℕ) (rest : List ReadAnswer)
      → 0 < full
      → All Inner text
      → (c ≡ b'\n') ⊎ (c ≡ b'\r')
      → length before + length text < size
      → read_loop size full stop (at seen before) (map byte text ++ byte c ∷ rest)
        ≡ line (before ++ text)
  unfolding read_loop
  read_loop-line [] seen before c rest h i e room =
      rw (read_round-end seen before c e, read_loop) (rw (append-nil before))
  read_loop-line (d ∷ text) seen before c rest h (i, inner) e room =
      rw (read_round-Inner seen before d h i (omega arith), read_loop)
        (read_loop-line text true (before ++ d ∷ []) c rest h inner e
            (omega (arith, length-append before (d ∷ [])))
          ∙ simp list_laws)

  read_loop-full :
      (d : ℕ) (text : Bytes) (seen : Bool) (before : Bytes) (rest : List ReadAnswer)
      → 0 < full
      → All Inner (d ∷ text)
      → length before + length (d ∷ text) ≡ size
      → read_loop size full stop (at seen before) (map byte (d ∷ text) ++ rest)
        ≡ line (before ++ d ∷ text)
  unfolding read_loop
  read_loop-full d [] seen before rest h (i, inner) room =
      rw (read_round-last seen before d i (omega arith), read_loop)
  read_loop-full d (b ∷ text) seen before rest h (i, inner) room =
      rw (read_round-Inner seen before d h i (omega arith), read_loop)
        (read_loop-full b text true (before ++ d ∷ []) rest h inner
            (omega (arith, length-append before (d ∷ [])))
          ∙ simp list_laws)

  -- A line that is shorter than the buffer, ended by CR or LF: with a timeout above 0 `readLine`
  -- returns true and the text in front of the end, and reads no byte behind it.
  pub read_line-line :
      (text : Bytes) (c : ℕ) (rest : List ReadAnswer)
      → 0 < full
      → All Inner text
      → (c ≡ b'\n') ⊎ (c ≡ b'\r')
      → length text < size
      → read_line size full stop state (map byte text ++ byte c ∷ rest) ≡ line text
  unfolding read_line
  read_line-line text c rest h i e room = read_loop-line text false [] c rest h i e (omega arith)

  -- A text that fills the buffer without an end of line: `readLine` returns true with the whole
  -- buffer, though its last lines mean to report an error there.
  pub read_line-full :
      (d : ℕ) (text : Bytes) (rest : List ReadAnswer)
      → 0 < full
      → All Inner (d ∷ text)
      → length (d ∷ text) ≡ size
      → read_line size full stop state (map byte (d ∷ text) ++ rest) ≡ line (d ∷ text)
  unfolding read_line
  read_line-full d text rest h i room = read_loop-full d text false [] rest h i (omega arith)
