-- ===== src/Client.antt =====
-- The client program (src/client.cpp), up to one exchange with the server. Log lines and sleeps are
-- left out; what the system answers to the socket and when CtrlC is pressed are arguments.
pub mod Connect
pub mod Line
pub mod Main
use protobuf_sandbox.Prelude.{
  ℕ, zero, suc, ◌+◌, ◌-◌, Bool, true, false, ◌||◌, Option, none, some, List, [], ◌∷◌, ◌++◌, ◌==◌,
  length, if◌then◌else◌, Bytes, contains, Run, ok, fault, ◌>>=◌,
}
use protobuf_sandbox.Prelude.Int.{pos, fits_int}
use protobuf_sandbox.Socket.Types.{State}
use protobuf_sandbox.Socket.{LinuxSocket, send_data, get_connection_state}
use protobuf_sandbox.Socket
use protobuf_sandbox.Socket.ReadLine.{ReadAnswer, finished, waiting, read_line}
use protobuf_sandbox.Command.Messages.{Command}

abbrev pub buf_size : ℕ
buf_size = 512

-- `n` NUL bytes.
abbrev pub nuls : ℕ → Bytes
nuls zero = []
nuls (suc n) = 0 ∷ nuls n

-- `std::string(buffer.data(), buffer.size())`: the text, and NUL bytes up to the size of the buffer.
abbrev pub whole_buffer : Bytes → Bytes
whole_buffer text = text ++ nuls (buf_size - length text)

abbrev pub is_connected : State → Bool
is_connected State.connected = true
is_connected _ = false

-- `readLineFromSocket`; `none` while `readLine` still waits. `true` is the timeout, of one second, and
-- the client waits out the end of the stream.
unfoldable pub read_line_from_socket : LinuxSocket → List ReadAnswer → Option (LinuxSocket × Bytes)
unfolding read_line get_connection_state
read_line_from_socket s answers =
    if is_connected (get_connection_state s).0
    then elim (read_line buf_size 1000000 false s.state answers) [
      | waiting st ↦ none
      | finished r ↦ some (record s { state = r.state }, if r.ret then whole_buffer r.text else [])
    ]
    else some (s, [])

-- `sendCommand`; `write` is `SerializeToString` of a command.
unfoldable pub send_command :
    (Command → Bytes) → LinuxSocket → Command → Bool → Option (ℕ × Bytes) × Bool
unfolding send_data
send_command write s cmd sends = send_data s (write cmd) sends

-- The variables of `main`, and what was handed to `send`.
pub record Client : Type 0 where
  pub socket : LinuxSocket
  pub cmd : Command
  pub cmd_idx : ℕ
  pub sent : List (Option (ℕ × Bytes))

-- What the system answers to one exchange, and whether CtrlC has been pressed before it.
pub record Exchange : Type 0 where
  pub ctrl_c : Bool
  pub sends : Bool
  pub answers : List ReadAnswer

-- `main` goes on, returns `false`, or waits for more answers.
pub data Stage {ℓ} (A : Type ℓ) : Type ℓ where
  go_on : A → Stage A
  returned_false : Stage A
  more : Stage A

abbrev pub then_go {ℓ κ} :
    {A : Type ℓ} {B : Type κ} → Run (Stage A) → (A → Run (Stage B)) → Run (Stage B)
then_go m f = m >>= elim [ go_on a ↦ f a | returned_false ↦ ok returned_false | more ↦ ok more ]

-- A response must not be empty nor hold the word `bad`.
abbrev pub judge :
    Bytes → Client → Option (ℕ × Bytes) → Option (LinuxSocket × Bytes) → Run (Stage Client)
judge bad c out none = ok more
judge bad c out (some (s, line)) =
    if length line == 0 || contains line bad
    then ok returned_false
    else ok (go_on (record c { socket = s; sent = c.sent ++ out ∷ [] }))

-- Send the command and read the response.
unfoldable pub exchange : (Command → Bytes) → Bytes → Client → Exchange → Run (Stage Client)
unfolding send_command read_line_from_socket
exchange write bad c x =
    let (out, good) = send_command write c.socket c.cmd x.sends in
    if good then judge bad c out (read_line_from_socket c.socket x.answers) else ok returned_false

-- A sum of `int`, which must not overflow.
abbrev pub index_plus : ℕ → ℕ → Run ℕ
index_plus a b = if fits_int (pos (a + b)) then ok (a + b) else fault
