-- ===== src/Tests/Threads.antt =====
-- The threads of the command processor on a concrete schedule and its callback.
use protobuf_sandbox.Prelude.{
  ℕ, List, ◌≡◌, refl, map, true, false, some, [], ◌∷◌, ◌++◌, Bytes, codes, contains, starts_with,
  c_str, Run, ok, fault,
}
use protobuf_sandbox.Prelude.Int.{pos}
use protobuf_sandbox.Transport.{new_transport, update_rx, deliver}
use protobuf_sandbox.Transport.Receive.{block_input, texts}
use protobuf_sandbox.Socket.{read_block}
use protobuf_sandbox.Command.Queue.{recv_all}
use protobuf_sandbox.Command.Messages.{Command, empty_result}
use protobuf_sandbox.Command.{Processor, recv_cb_routine, program_loop}
use protobuf_sandbox.Command.Threads.{
  System, Move, receive, push, take, answer_it, send_it, work, idle, run_moves, start_system,
}
use protobuf_sandbox.Command.Threads.Replies.{in_flight, Replied}
use protobuf_sandbox.Command.Threads.Order.{schedule_order}
use protobuf_sandbox.Command.Threads.Served.{IsServed, stream-IsServed}
use protobuf_sandbox.Transport.Framing.{cut}
use protobuf_sandbox.Command.Threads.Stopped.{IsStopped, run_moves-IsStopped}
use protobuf_sandbox.Command.Calls.{recv_callback, invoke_all, calling, invoke_all-recv_all}
use protobuf_sandbox.Tests.Library.{protobuf}
use protobuf_sandbox.Tests.Stream.{server, transport, input, transport-IsReceiving}

abbrev cmd : Bytes → Command
cmd method = record { id = pos 7; method = method }

-- Two commands wait, and the transport is connected.
abbrev waiting_processor : Bytes → Processor
waiting_processor method = record {
  running = true;
  exit_on_quit = true;
  done = false;
  has_thread = true;
  cmd_fifo = cmd method ∷ cmd (codes "status") ∷ [];
  response = record {
    id = some (pos 6);
    result = some (record empty_result { center_point = 1 ∷ 2 ∷ [] });
  };
  latest_result = record empty_result { center_point = 1 ∷ 2 ∷ [] };
  socket = some server;
  transport = some transport;
}

abbrev value : System → Run System → System
value s fault = s
value s (ok t) = t

-- A command arrives while the first one is worked on, and the worker stores a result in between.
abbrev moves : List Move
moves =
    take
    ∷ receive (block_input input (113, 10 ∷ []))
    ∷ push
    ∷ answer_it
    ∷ work 9 8 7
    ∷ send_it true
    ∷ take
    ∷ answer_it
    ∷ send_it false
    ∷ take
    ∷ []

abbrev start : Bytes → System
start method = start_system (waiting_processor method)

abbrev ended : Bytes → System
ended method = value (start method) (run_moves protobuf moves (start method))

run_query : run_moves protobuf moves (start (codes "query")) ≡ ok (ended (codes "query"))
unfolding start_system run_moves new_transport contains starts_with update_rx recv_all read_block
    c_str recv_cb_routine program_loop
run_query = refl

schedule_order_example :
    (done : List Command) × ((ended (codes "query")).received
      ≡ done
        ++ (in_flight (ended (codes "query")).phase ++ (ended (codes "query")).processor.cmd_fifo))
    × Replied protobuf (some (pos 6)) done (ended (codes "query")).replies
schedule_order_example =
    schedule_order protobuf (waiting_processor (codes "query")) moves (ended (codes "query"))
      run_query

-- The processor behind a `quit`, and what arrives later.
abbrev stopped : System
stopped = record {
  processor = record (waiting_processor (codes "query")) { running = false };
  phase = idle;
  pending = [];
  received = [];
  replies = [];
}

abbrev late : List Move
late =
    take ∷ receive (block_input input (113, 10 ∷ [])) ∷ push ∷ take ∷ answer_it ∷ send_it true ∷ []

run_late : run_moves protobuf late stopped ≡ ok (value stopped (run_moves protobuf late stopped))
unfolding run_moves new_transport contains starts_with update_rx recv_all read_block c_str
    recv_cb_routine
run_late = refl

run_moves-IsStopped_example :
    IsStopped (value stopped (run_moves protobuf late stopped))
    × ((value stopped (run_moves protobuf late stopped)).replies ≡ stopped.replies)
run_moves-IsStopped_example =
    run_moves-IsStopped protobuf late stopped (value stopped (run_moves protobuf late stopped))
      run_late (record { phase = refl; running = refl })

invoke_all-recv_all_example :
    (invoke_all 4
        (codes "a" ∷ codes "b" ∷ [])
        (recv_callback protobuf (waiting_processor (codes "query")))
      ≡ calling protobuf
          (record (waiting_processor (codes "query")) {
            cmd_fifo =
                (waiting_processor (codes "query")).cmd_fifo
                ++ map protobuf.parse (codes "a" ∷ codes "b" ∷ []);
          })
          6
          (codes "b")
          (some true))
    × ((invoke_all 4
          (codes "a" ∷ codes "b" ∷ [])
          (recv_callback protobuf (waiting_processor (codes "query")))).object
        ≡ recv_all protobuf
            (waiting_processor (codes "query"))
            (deliver 4 (codes "a" ∷ codes "b" ∷ [])))
invoke_all-recv_all_example =
    invoke_all-recv_all protobuf (waiting_processor (codes "query")) 4 (codes "a" ∷ []) (codes "b")

abbrev arriving : List (ℕ × Bytes)
arriving = (113, 10 ∷ []) ∷ []

stream-IsServed_example :
    IsServed protobuf
      (some (pos 6))
      ((waiting_processor (codes "query")).cmd_fifo
        ++ map protobuf.parse (cut [] (transport.cmd_buffer ++ texts arriving)).0)
      moves
      (waiting_processor (codes "query"))
stream-IsServed_example =
    stream-IsServed protobuf (waiting_processor (codes "query")) transport server 5 input arriving
      moves refl transport-IsReceiving tt refl
