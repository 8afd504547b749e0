-- ===== src/Client/Line.antt =====
-- What `readLineFromSocket` of the client gives (src/client.cpp), and what comes of a server that is
-- silent.
use protobuf_sandbox.Prelude.{
  ℕ, zero, suc, ◌+◌, ◌-◌, ◌*◌, ◌≤◌, ◌≡◌, ◌⊎◌, refl, ap, Bool, true, false, Option, none, some, List,
  [], ◌∷◌, ◌++◌, arith, if◌then◌else◌, length, length-append, Bytes, contains, ok, starts_with,
}
use protobuf_sandbox.Prelude.Int.{pos}
use protobuf_sandbox.Socket.Types.{State}
use protobuf_sandbox.Socket.{LinuxSocket, get_connection_state}
use protobuf_sandbox.Socket.ReadLine.{
  ReadAnswer, would_block, Progress, finished, waiting, read_loop, read_line,
}
use protobuf_sandbox.Socket.ReadLine.Bounds.{Sound, read_line-Sound}
use protobuf_sandbox.Command.Messages.{Command}
use protobuf_sandbox.Client.{
  buf_size, nuls, whole_buffer, is_connected, read_line_from_socket, send_command, Client, go_on,
  exchange,
}

length-nuls : (n : ℕ) → length (nuls n) ≡ n
length-nuls zero = refl
length-nuls (suc n) = omega (arith, length-nuls n)

length-whole_buffer : (text : Bytes) → length text ≤ 512 → length (whole_buffer text) ≡ 512
length-whole_buffer text h =
    omega (arith, length-append text (nuls (512 - length text)), length-nuls (512 - length text))

-- A line that the client reads is empty or has the 512 bytes of its buffer.
pub read_line_from_socket-size :
    (s s' : LinuxSocket) (answers : List ReadAnswer) (line : Bytes)
    → read_line_from_socket s answers ≡ some (s', line)
    → (length line ≡ 0) ⊎ (length line ≡ 512)
unfolding read_line_from_socket get_connection_state
read_line_from_socket-size s s' answers line e = go (is_connected s.state) e
  where
    read :
        (p : Progress)
        → Sound 512 p
        → ◌≡◌ {A = Option (LinuxSocket × Bytes)}
            (elim p [
              | waiting st ↦ none
              | finished r ↦
                  some (record s { state = r.state }, if r.ret then whole_buffer r.text else [])
            ])
            (some (s', line))
        → (length line ≡ 0) ⊎ (length line ≡ 512)
    read (finished r) h q = ground (arith, length-whole_buffer r.text h.fits)
    read (waiting st) h q = cc

    go :
        (b : Bool)
        → ◌≡◌ {A = Option (LinuxSocket × Bytes)}
            (if b
              then elim (read_line 512 1000000 false s.state answers) [
                | waiting st ↦ none
                | finished r ↦
                    some (record s { state = r.state }, if r.ret then whole_buffer r.text else [])
              ]
              else some (s, []))
            (some (s', line))
        → (length line ≡ 0) ⊎ (length line ≡ 512)
    go true q =
        read (read_line 512 1000000 false s.state answers)
          (read_line-Sound 512 1000000 false s.state answers (omega arith)) q
    go false q = ground arith

-- `n` answers that there is no data.
abbrev pub silence : ℕ → List ReadAnswer
silence zero = []
silence (suc n) = would_block ∷ silence n

-- The read of a line from a peer that is silent returns true, with no text, when the timeout is over.
read_loop-silence :
    (size : ℕ) (full : ℕ) (stop : Bool) (state : State) (n left : ℕ)
    → left ≡ 250 + n * 250
    → read_loop size full stop
        (record { text = []; first_char = false; left = left; state = state })
        (silence (suc n))
      ≡ finished (record { text = []; num_read = pos 0; state = state; ret = true })
unfolding read_loop
read_loop-silence size full stop state zero left e = ground (arith, e)
read_loop-silence size full stop state (suc n) left e =
    ground (arith, e, read_loop-silence size full stop state n (left - 250) (omega (arith, e)))

contains-nuls : (n : ℕ) (b : ℕ) (bs : Bytes) → contains (nuls n) (suc b ∷ bs) ≡ false
unfolding contains starts_with
contains-nuls zero b bs = refl
contains-nuls (suc n) b bs = ground (arith, contains-nuls n b bs)

read_line-silence :
    (size : ℕ) (stop : Bool) (state : State) (n : ℕ)
    → read_line size (250 + n * 250) stop state (silence (suc n))
      ≡ finished (record { text = []; num_read = pos 0; state = state; ret = true })
unfolding read_line
read_line-silence size stop state n = read_loop-silence size _ stop state n _ refl

second-silence :
    (state : State)
    → read_line buf_size 1000000 false state (silence 4000)
      ≡ finished (record { text = []; num_read = pos 0; state = state; ret = true })
second-silence state = read_line-silence 512 false state 3999

-- With a connected socket, 4000 answers without data are a whole timeout.
read_line_from_socket-silence :
    (s : LinuxSocket)
    → is_connected s.state ≡ true
    → read_line_from_socket s (silence 4000) ≡ some (s, nuls 512)
unfolding read_line_from_socket get_connection_state
read_line_from_socket-silence s h = rw (h) (ap got (second-silence s.state))
  where
    got : Progress → Option (LinuxSocket × Bytes)
    got (finished r) =
        some (record s { state = r.state }, if r.ret then whole_buffer r.text else [])
    got (waiting st) = none

-- A connected server that does not answer at all is taken for one that accepts: when the command can
-- be sent and `read` has no data 4000 times, the exchange goes on, whatever word without a NUL byte in
-- front it looks for.
pub exchange-silence :
    (write : Command → Bytes) (c : Client) (ctrl_c : Bool) (b : ℕ) (bs : Bytes)
    → is_connected c.socket.state ≡ true
    → (send_command write c.socket c.cmd true).1 ≡ true
    → exchange write
        (suc b ∷ bs)
        c
        (record { ctrl_c = ctrl_c; sends = true; answers = silence 4000 })
      ≡ ok (go_on (record c { sent = c.sent ++ (send_command write c.socket c.cmd true).0 ∷ [] }))
unfolding exchange
exchange-silence write c ctrl_c b bs h k =
    rw (k, read_line_from_socket-silence c.socket h, contains-nuls 512 b bs) refl
