-- ===== src/Tests/Command.antt =====
-- The command processor on concrete commands.
use protobuf_sandbox.Prelude.{
  ℕ, Option, List, All, ◌≡◌, refl, true, false, none, some, [], ◌∷◌, Bytes, codes, contains,
  starts_with, length, ok, fault,
}
use protobuf_sandbox.Prelude.Int.{pos}
use protobuf_sandbox.Socket.Types.{Mode, State}
use protobuf_sandbox.Socket.{LinuxSocket}
use protobuf_sandbox.Command.Messages.{Command, Result, empty_result}
use protobuf_sandbox.Command.{Processor, new_processor, program_loop}
use protobuf_sandbox.Command.Serve.{main_loop, IsServing, Answered, main_loop-answers}
use protobuf_sandbox.Command.Process.{IsPlain}
use protobuf_sandbox.Tests.Library.{protobuf}

abbrev server : LinuxSocket
server = record {
  mode = Mode.server;
  state = State.connected;
  ip_address = [];
  port = pos 8080;
  server_sock = some 3;
  client_sock = some 5;
  has_callback = false;
}

abbrev point : Result
point = record empty_result { center_point = 1 ∷ 2 ∷ [] }

abbrev cmd : Bytes → Command
cmd method = record { id = pos 7; method = method }

-- Works on one command, and another waits behind it.
abbrev busy : Bytes → Processor
busy method = record {
  running = true;
  exit_on_quit = true;
  done = false;
  has_thread = true;
  cmd_fifo = cmd method ∷ cmd (codes "status") ∷ [];
  response = record { id = some (pos 6); result = some point };
  latest_result = point;
  socket = some server;
  transport = none;
}

-- A new processor has no coordinates, so the first round of its worker faults.
first_round : program_loop new_processor 1 2 3 ≡ fault
unfolding program_loop new_processor
first_round = refl

query_is_no_quit : contains (codes "query") (codes "quit") ≡ false
unfolding contains starts_with
query_is_no_quit = refl

quit_is_quit : contains (codes "quit") (codes "quit") ≡ true
unfolding contains starts_with
quit_is_quit = refl

abbrev queue : List Command
queue = cmd (codes "start") ∷ cmd (codes "status") ∷ []

busy-IsServing : IsServing (busy (codes "start")) queue server
busy-IsServing = record { running = refl; queued = refl; uses = refl }

queue-IsPlain : All IsPlain queue
unfolding contains starts_with
queue-IsPlain = ((refl, refl), ((refl, refl), tt))

main_loop-answers_example :
    (q : Processor) × (outs : List (Option (ℕ × Bytes))) × IsServing q [] server
    × (main_loop protobuf true (length queue) (busy (codes "start")) ≡ ok (q, outs))
    × Answered protobuf server true queue outs
main_loop-answers_example =
    main_loop-answers protobuf true queue (busy (codes "start")) server busy-IsServing queue-IsPlain
