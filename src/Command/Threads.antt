-- ===== src/Command/Threads.antt =====
-- The three threads around `CommandProcessor` (src/CommandProcessor.cpp): the transport's thread, which
-- receives, the main loop, whose `processCommands` stands here in the parts between its locks, and the
-- worker. A schedule is a list of their moves, each of which sees what the one before it left: races for
-- members that are used without a lock, such as `m_ClientSock`, are left out. A round that receives and
-- each push of one of its messages are moves of their own; where the schedule has the next round before
-- all are pushed, the rest of them is pushed first.
pub mod Breaks
pub mod Order
pub mod Replies
pub mod Steps
pub mod Stopped
pub mod Stream
pub mod Whole
pub mod Served
pub mod Session
pub mod Worker
use protobuf_sandbox.Prelude.{
  ℕ, Bytes, Bool, true, false, not, ◌&&◌, ◌==◌, Option, none, some, List, [], ◌∷◌, ◌++◌, map,
  if◌then◌else◌, codes, contains, Run, ok, fault, ◌>>=◌,
}
use protobuf_sandbox.Json.Node.{Double}
use protobuf_sandbox.Transport.{Transport, RxInput, update_rx}
use protobuf_sandbox.Command.Messages.{Command, Protobuf, Success, Response}
use protobuf_sandbox.Command.{
  Processor, recv_cb_routine, socket_of, answer, with_success, send_to, program_loop,
}
use protobuf_sandbox.Command.Queue.{recv_all}

-- Where the main thread is in `processCommands`: outside, behind the lock of the queue with the
-- command that it took, or at the call of `sendData` with the response to it.
pub data Phase : Type 0 where
  idle : Phase
  taken replying : Command → Phase

-- `pending` are the calls of the callback that the round of the transport's thread still has to make.
-- `received` and `replies` are the history: the commands that were pushed, and of each call of `sendData`
-- what it handed to `send`, with the descriptor, and what it returned.
pub record System : Type 0 where
  pub processor : Processor
  pub phase : Phase
  pub pending : List (ℕ × Bytes)
  pub received : List Command
  pub replies : List (Option (ℕ × Bytes) × Bool)

pub data Move : Type 0 where
  receive : RxInput → Move
  push : Move
  take answer_it : Move
  send_it : Bool → Move
  work : Double → Double → Double → Move

-- A round of the transport's thread, behind the calls that the one before it has to make.
unfoldable pub receive_move : Protobuf → Option Transport → RxInput → System → Run System
receive_move pb none i s = ok s
receive_move pb (some t) i s = do
  r ← update_rx t i
  ok (record s {
    processor = recv_all pb (record s.processor { transport = some r.transport }) s.pending;
    pending = r.delivered;
    received = s.received ++ map (λ m. pb.parse m.1) s.pending;
  })

-- A call of the callback, which locks the queue for its push.
unfoldable pub push_move : Protobuf → List (ℕ × Bytes) → System → Run System
unfolding recv_cb_routine
push_move pb [] s = ok s
push_move pb (m ∷ msgs) s = ok (record s {
  processor = (recv_cb_routine pb s.processor m).0;
  pending = msgs;
  received = s.received ++ pb.parse m.1 ∷ [];
})

-- The part of `processCommands` up to the unlocking of the queue. `newCmd` is used next, and is NULL
-- where the queue is empty.
unfoldable pub take_move : Bool → List Command → System → Run System
take_move false cmds s = ok s
take_move true [] s = fault
take_move true (cmd ∷ cmds) s =
    ok (record s { processor = record s.processor { cmd_fifo = cmds }; phase = Phase.taken cmd })

-- The response as the branches on the method find it.
abbrev pub first_response : Protobuf → Command → Response → Response
first_response pb cmd r = if pb.byte_size cmd == 0 then with_success cmd Success.is_false r else r

-- The branches on the method. Those of `query` and the worker's stores exclude one another.
unfoldable pub answer_move : Protobuf → Command → System → Run System
unfolding answer
answer_move pb cmd s = do
  r ← answer cmd s.processor.latest_result (first_response pb cmd s.processor.response)
  ok (record s {
    processor = record s.processor {
      response = r;
      running =
          s.processor.running
          && not (contains cmd.method (codes "quit") && s.processor.exit_on_quit);
    };
    phase = Phase.replying cmd;
  })

-- `SerializeToString` and `sendData`, over the socket as it is by now.
unfoldable pub send_move : Protobuf → Bool → System → Run System
send_move pb sends s = do
  out ← send_to (socket_of s.processor) (pb.serialize s.processor.response) sends
  ok (record s { phase = Phase.idle; replies = s.replies ++ out ∷ [] })

unfoldable pub work_move : Double → Double → Double → System → Run System
work_move radius x y s = do
  r ← program_loop s.processor radius x y
  ok (record s { processor = r.0 })

-- A move of the main thread that is not its next one changes nothing.
unfoldable pub move_in : Protobuf → Phase → Move → System → Run System
unfolding receive_move push_move take_move answer_move send_move work_move
move_in pb phase (receive i) s = receive_move pb s.processor.transport i s
move_in pb phase push s = push_move pb s.pending s
move_in pb phase (work radius x y) s = work_move radius x y s
move_in pb idle take s = take_move s.processor.running s.processor.cmd_fifo s
move_in pb (taken cmd) answer_it s = answer_move pb cmd s
move_in pb (replying cmd) (send_it sends) s = send_move pb sends s
move_in pb _ _ s = ok s

unfoldable pub run_moves : Protobuf → List Move → System → Run System
unfolding move_in
run_moves pb [] s = ok s
run_moves pb (m ∷ moves) s = do next ← move_in pb s.phase m s; run_moves pb moves next

-- The threads as they start, with commands that may wait already.
unfoldable pub start_system : Processor → System
start_system p = record {
  processor = p;
  phase = Phase.idle;
  pending = [];
  received = p.cmd_fifo;
  replies = [];
}
