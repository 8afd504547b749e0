-- ===== src/Command.antt =====
-- `CommandProcessor` (src/CommandProcessor.cpp): the queue of commands, the response to each, and the
-- start and stop of the processor. Locks guard single steps here; log lines and sleeps are left out.
pub mod Messages
pub mod Points
pub mod Process
pub mod Queue
pub mod Says
pub mod Serve
pub mod Init
pub mod Stream
pub mod Threads
pub mod Calls
use protobuf_sandbox.Prelude.{
  ℕ, Bool, true, false, ◌&&◌, not, Option, none, some, List, [], ◌∷◌, ◌++◌, ◌==◌, if◌then◌else◌,
  Bytes, codes, contains, Run, ok, fault, ◌>>=◌,
}
use protobuf_sandbox.Prelude.Int.{ℤ, pos}
use protobuf_sandbox.Json.Node.{Double, CJson, null, node}
use protobuf_sandbox.Json.Library.{CJsonLib}
use protobuf_sandbox.Json.Getters.{
  get_attribute_value_string, get_attribute_value_int, get_attribute_value_bool,
}
use protobuf_sandbox.Socket.Types.{Mode}
use protobuf_sandbox.Socket.{LinuxSocket, Opening, new_socket, send_data}
use protobuf_sandbox.Socket
use protobuf_sandbox.Transport.{
  Transport, new_transport, use_socket, register_recv_callback, start_comm, stop_comm,
}
use protobuf_sandbox.Transport
use Messages.{
  Command, Response, Result, Success, Status, Protobuf, empty_result, get_center_point,
  set_center_point, result_of, radius_of,
}

-- The members that the operations read and write. Once the transport uses the socket, `socket` and
-- the transport's are one object, and it is kept in the transport. `has_thread` is whether `thread_handle`
-- is that of a thread to join; before `Start` has created one it is not initialized.
pub record Processor : Type 0 where
  pub running : Bool
  pub exit_on_quit : Bool
  pub done : Bool
  pub has_thread : Bool
  pub cmd_fifo : List Command
  pub response : Response
  pub latest_result : Result
  pub socket : Option LinuxSocket
  pub transport : Option Transport

-- The constructor.
unfoldable pub new_processor : Processor
new_processor = record {
  running = false;
  exit_on_quit = true;
  done = false;
  has_thread = false;
  cmd_fifo = [];
  response = record { id = none; result = none };
  latest_result = empty_result;
  socket = none;
  transport = none;
}

abbrev pub socket_of : Processor → Option LinuxSocket
socket_of p = elim p.transport [ none ↦ p.socket | some t ↦ t.socket ]

-- The callback: the message is parsed and pushed behind the others.
unfoldable pub recv_cb_routine : Protobuf → Processor → ℕ × Bytes → Processor × Bool
recv_cb_routine pb p (reply_id, msg) =
    (record p { cmd_fifo = p.cmd_fifo ++ pb.parse msg ∷ [] }, true)

-- The query branch: the latest result is copied field by field.
unfoldable pub answer_query : Command → Result → Response → Run Response
unfolding get_center_point set_center_point
answer_query cmd latest r = do
  x0 ← get_center_point 0 latest.center_point
  a ← set_center_point 0 x0 (result_of r).center_point
  x1 ← get_center_point 1 latest.center_point
  b ← set_center_point 1 x1 a
  ok (record {
    id = some cmd.id;
    result =
        some (record (result_of r) { contact_radius = some (radius_of latest); center_point = b });
  })

abbrev pub with_success : Command → Success → Response → Response
with_success cmd s r = record {
  id = some cmd.id;
  result = some (record (result_of r) { success = some s });
}

abbrev pub with_status : Command → Status → Response → Response
with_status cmd s r = record {
  id = some cmd.id;
  result = some (record (result_of r) { status = some s });
}

-- The branches on the method. `quit` leaves the response as it is.
unfoldable pub answer : Command → Result → Response → Run Response
unfolding answer_query
answer cmd latest r =
    if contains cmd.method (codes "quit")
    then ok r
    else if contains cmd.method (codes "status")
    then ok (with_status cmd Status.is_ok r)
    else if contains cmd.method (codes "start")
    then ok (with_success cmd Success.is_true r)
    else if contains cmd.method (codes "stop")
    then ok (with_success cmd Success.is_true r)
    else if contains cmd.method (codes "query")
    then answer_query cmd latest r
    else ok (with_success cmd Success.is_false r)

unfoldable pub is_running : Processor → Bool
is_running p = p.running

-- `decodeBuffer`, which nothing calls: a new command, whatever is in the buffer.
unfoldable pub decode_buffer : Bytes → Command
decode_buffer buffer = record { id = pos 0; method = [] }

-- What a call of `processCommands` leaves, hands to `send`, and returns.
pub record Processed : Type 0 where
  pub processor : Processor
  pub sent : Option (ℕ × Bytes)
  pub ret : Bool

abbrev pub send_to : Option LinuxSocket → Bytes → Bool → Run (Option (ℕ × Bytes) × Bool)
send_to none text sends = fault
send_to (some s) text sends = ok (send_data s text sends)

-- The command taken from the queue: answered, and the response sent. An empty message is first
-- marked as failed.
unfoldable pub handle : Protobuf → Processor → Command → Bool → Run Processed
unfolding answer
handle pb p cmd sends = do
  let first =
      if pb.byte_size cmd == 0 then with_success cmd Success.is_false p.response else p.response
  r ← answer cmd p.latest_result first
  out ← send_to (socket_of p) (pb.serialize r) sends
  ok (record {
    processor = record p {
      response = r;
      running = p.running && not (contains cmd.method (codes "quit") && p.exit_on_quit);
    };
    sent = out.0;
    ret = true;
  })

-- `processCommands`. With an empty queue `newCmd` is NULL, and is used all the same.
unfoldable pub process_queue : Protobuf → Processor → List Command → Bool → Run Processed
unfolding handle
process_queue pb p [] sends = fault
process_queue pb p (cmd ∷ cmds) sends = handle pb (record p { cmd_fifo = cmds }) cmd sends

unfoldable pub process_commands : Protobuf → Processor → Bool → Run Processed
unfolding process_queue
process_commands pb p sends =
    if p.running
    then process_queue pb p p.cmd_fifo sends
    else ok (record { processor = p; sent = none; ret = false })

unfoldable pub do_work : Protobuf → Processor → Bool → Run Processed
unfolding process_commands
do_work pb p sends =
    if p.running
    then process_commands pb p sends
    else ok (record { processor = p; sent = none; ret = false })

-- `programLoop`, with the three products of `rand` that it stores.
unfoldable pub program_loop : Processor → Double → Double → Double → Run (Processor × Bool)
unfolding set_center_point
program_loop p radius x y = do
  a ← set_center_point 0 x p.latest_result.center_point
  b ← set_center_point 1 y a
  ok (
    record p {
      latest_result = record p.latest_result { contact_radius = some radius; center_point = b };
    },
    true,
  )

-- `Start`; the flags are whether each `pthread_create` succeeds.
unfoldable pub start : Processor → Bool → Bool → Run (Processor × Bool)
start p comm_spawns spawns = elim p.transport [
  | none ↦ fault
  | some t ↦
      let (t', started) = start_comm t comm_spawns in
      ok (
        if started
        then if spawns
          then (
            record p { transport = some t'; done = false; has_thread = true; running = true },
            true,
          )
          else (record p { transport = some t'; done = false }, false)
        else (record p { transport = some t' }, false))
]

-- `pthread_join` of the worker, whose loop ends at `Done`. Without a thread it is undefined behaviour.
unfoldable pub join_worker : Processor → Run Processor
join_worker p = if p.has_thread then ok (record p { has_thread = false }) else fault

unfoldable pub shutdown : Processor → Run (Processor × Bool)
unfolding join_worker
shutdown p = elim p.transport [
  | none ↦ fault
  | some t ↦ do
    (t', steps, done) ← stop_comm t
    q ← join_worker (record p { running = false; done = true; transport = some t' })
    ok (q, true)
]

-- The part of `init` behind the transport: the configuration of the image engine.
unfoldable pub check_img_engine : CJsonLib → CJson → Run Bool
check_img_engine lib config = elim (lib.get_object_item config (codes "imgEngine")) [
  | null ↦ ok false
  | node it c n ↦ do
    kind ← get_attribute_value_string (node it c n) (codes "imgEng_type")
    elim kind [ none ↦ ok false | some s ↦ ok true ]
]

-- The part behind the initialization of the socket.
unfoldable pub init_with :
    CJsonLib → CJson → Processor → LinuxSocket × Bool → Run (Processor × Bool)
unfolding check_img_engine
init_with lib config p (s, false) = ok (record p { socket = some s }, false)
init_with lib config p (s, true) = do
  good ← check_img_engine lib config
  ok (
    record p {
      socket = some s;
      transport = some (register_recv_callback (use_socket new_transport s).0 true).0;
    },
    good,
  )

-- The part of `init` behind the address and the port.
unfoldable pub init_at : CJsonLib → CJson → Opening → Processor → Bytes → ℤ → Run (Processor × Bool)
unfolding init_with
init_at lib config a p ip port = do
  quits ← get_attribute_value_bool config (codes "exit_on_quit")
  init_with lib config (record p { exit_on_quit = elim quits [ none ↦ true | some b ↦ b ] })
      (Socket.init new_socket Mode.server ip port a)

unfoldable pub init : CJsonLib → CJson → Opening → Processor → Run (Processor × Bool)
unfolding init_at
init lib config a p = do
  ip ← get_attribute_value_string config (codes "ipAddress")
  elim ip [
    | none ↦ ok (p, false)
    | some address ↦ do
      port ← get_attribute_value_int config (codes "port")
      elim port [ none ↦ ok (p, false) | some n ↦ init_at lib config a p address n ]
  ]
