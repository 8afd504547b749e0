-- ===== src/Tests/Client.antt =====
-- Concrete runs of the client.
use protobuf_sandbox.Prelude.{
  ◌≡◌, refl, true, false, some, none, List, [], ◌∷◌, Bytes, codes, contains, starts_with, c_str,
  Run, ok, fault, map,
}
use protobuf_sandbox.Prelude.Int.{pos}
use protobuf_sandbox.Json.Node.{null}
use protobuf_sandbox.Socket.Types.{Mode, State}
use protobuf_sandbox.Socket.{Opening, LinuxSocket, get_connection_state, send_data}
use protobuf_sandbox.Socket.ReadLine.{ReadAnswer, byte, read_line}
use protobuf_sandbox.Command.Messages.{Command}
use protobuf_sandbox.Client.{
  Client, Exchange, Stage, go_on, returned_false, more, whole_buffer, read_line_from_socket,
  send_command,
}
use protobuf_sandbox.Client.Connect.{connected}
use protobuf_sandbox.Client.Main.{run_client}
use protobuf_sandbox.Tests.Library.{lib}

abbrev pub socket : LinuxSocket
socket = record {
  mode = Mode.client;
  state = State.connected;
  ip_address = codes "127.0.0.1";
  port = pos 12070;
  server_sock = none;
  client_sock = some 4;
  has_callback = false;
}

abbrev pub status : Command
status = record { id = pos 1; method = codes "status" }

abbrev pub write : Command → Bytes
write cmd = cmd.method

abbrev good_line : List ReadAnswer
good_line = map byte (codes "ok\n")

read_good : read_line_from_socket socket good_line ≡ some (socket, whole_buffer (codes "ok"))
unfolding read_line_from_socket read_line get_connection_state
read_good = refl

abbrev client : Client
client = record { socket = socket; cmd = status; cmd_idx = 1; sent = [] }

can_send : (send_command write socket status true).1 ≡ true
unfolding send_command send_data
can_send = refl

abbrev pub turn : Exchange
turn = record { ctrl_c = false; sends = true; answers = good_line }

-- Ten status commands, the start, a query, and the stop after CtrlC.
abbrev turns : List Exchange
turns =
    turn
    ∷ turn
    ∷ turn
    ∷ turn
    ∷ turn
    ∷ turn
    ∷ turn
    ∷ turn
    ∷ turn
    ∷ turn
    ∷ turn
    ∷ turn
    ∷ record turn { ctrl_c = true }
    ∷ []

abbrev value : Client → Run (Stage (Client × List Exchange)) → Client
value c fault = c
value c (ok (go_on r)) = r.0
value c (ok returned_false) = c
value c (ok more) = c

abbrev ended : Client
ended = value client (run_client lib (λ s. null) write (some status) socket turns)

run_turns : run_client lib (λ s. null) write (some status) socket turns ≡ ok (go_on (ended, []))
unfolding run_client contains starts_with send_data get_connection_state read_line c_str
run_turns = refl

-- The socket connects, and the pointer is used.
abbrev connects : Opening
connects = record {
  fd = none;
  binds = false;
  listens = false;
  connecting = record { fd = some 4; option_set = true; connects = true };
}
