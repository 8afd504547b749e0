-- ===== src/Transport.antt =====
-- `SocketTransport` (src/SocketTransport.cpp): the receiving thread's round `update_rx`, and the start
-- and stop of that thread. Log lines and sleeps are left out.
pub mod Framing
pub mod Receive
pub mod Reconnect
pub mod Thread
pub mod Uses
use protobuf_sandbox.Prelude.{
  ℕ, zero, suc, ◌+◌, Bool, true, false, Option, none, some, List, [], ◌∷◌, ◌++◌, ◌==◌, leb, length,
  if◌then◌else◌, Bytes, c_str, Run, ok, fault,
}
use protobuf_sandbox.Prelude.Int.{ℤ, pos, negsuc}
use protobuf_sandbox.Socket.Types.{State}
use protobuf_sandbox.Socket.{
  LinuxSocket, Connecting, Received, listen_for_client, reset_connection, close_connection,
  read_block,
}
use protobuf_sandbox.Socket.ReadLine.{LineRead}

pub data ReadMode : Type 0 where
  line block until : ReadMode

-- The members that the operations read and write.
pub record Transport : Type 0 where
  pub socket : Option LinuxSocket
  pub receive_mode : ReadMode
  pub cmd_buffer : Bytes
  pub invoke_cnt : ℕ
  pub has_callback : Bool
  pub comm_started : Bool
  pub rx_done : Bool

-- `m_ReadBlockSize`, the size of the buffer that is read into.
abbrev pub read_block_size : ℕ
read_block_size = 32768

unfoldable pub new_transport : Transport
new_transport = record {
  socket = none;
  receive_mode = ReadMode.block;
  cmd_buffer = [];
  invoke_cnt = 0;
  has_callback = false;
  comm_started = false;
  rx_done = false;
}

unfoldable pub use_socket : Transport → LinuxSocket → Transport × Bool
use_socket t s = (record t { socket = some s }, true)

unfoldable pub init : Transport → Transport × Bool
init t = elim t.socket [ none ↦ (t, false) | some s ↦ (t, true) ]

unfoldable pub register_recv_callback : Transport → Bool → Transport × Bool
register_recv_callback t callback = (record t { has_callback = callback }, true)

-- `find('\n')`, with `substr(0, idx)` and `substr(idx + 1)` at the place found.
unfoldable pub cut_at_newline : Bytes → Option (Bytes × Bytes)
cut_at_newline [] = none
cut_at_newline (x ∷ xs) =
    if x == b'\n'
    then some ([], xs)
    else elim (cut_at_newline xs) [ none ↦ none | some (front, back) ↦ some (x ∷ front, back) ]

-- The `while` loop over the newlines of `m_CmdBuffer`: the strings cut off, and what is left. One
-- round of fuel for each byte is enough, as each round cuts off a byte at least.
unfoldable pub drain : ℕ → Bytes → List Bytes × Bytes
unfolding cut_at_newline
drain zero buffer = ([], buffer)
drain (suc fuel) buffer = elim (cut_at_newline buffer) [
  | none ↦ ([], buffer)
  | some (front, back) ↦ (front ∷ (drain fuel back).0, (drain fuel back).1)
]

-- The `for` loop that hands the strings to the callback, with `++m_Invoke_Cnt`.
unfoldable pub deliver : ℕ → List Bytes → List (ℕ × Bytes)
deliver count [] = []
deliver count (s ∷ ss) = (suc count, s) ∷ deliver (suc count) ss

-- What a round leaves: the transport, the calls of the callback, and the value returned.
pub record Round : Type 0 where
  pub transport : Transport
  pub delivered : List (ℕ × Bytes)
  pub ret : Bool

abbrev pub quiet : Transport → Bool → Round
quiet t ret = record { transport = t; delivered = []; ret = ret }

-- The answers of the system to one round.
pub record RxInput : Type 0 where
  pub connecting : Connecting
  pub accepted : Option ℕ
  pub received : Received
  pub line : LineRead

-- The part behind the read: `m_CmdBuffer.append(m_ReadBuffer)` takes the text up to the first NUL.
unfoldable pub take_in : Transport → Bytes → Round
unfolding drain deliver
take_in t text =
    let buffer = t.cmd_buffer ++ c_str text in
    let (strs, left) = drain (length buffer) buffer in
    if t.has_callback
    then record {
      transport = record t { cmd_buffer = left; invoke_cnt = t.invoke_cnt + length strs };
      delivered = deliver t.invoke_cnt strs;
      ret = true;
    }
    else quiet (record t { cmd_buffer = left }) true

-- `if (ret_val == false)` resets the connection; `if (numRead > 0)` takes the text in.
unfoldable pub after_read : Transport → LinuxSocket → Connecting → Bytes × ℤ × Bool → Round
unfolding take_in
after_read t s a (text, num_read, true) = elim num_read [
  | negsuc n ↦ quiet (record t { socket = some s }) true
  | pos n ↦
      if n == 0
      then quiet (record t { socket = some s }) true
      else take_in (record t { socket = some s }) text
]
after_read t s a (text, num_read, false) =
    let (s', back) = reset_connection s a in quiet (record t { socket = some s' }) back

-- A line that fills the buffer leaves no NUL behind it, and `append` reads past the end.
unfoldable pub receive : ReadMode → Transport → LinuxSocket → RxInput → Run Round
unfolding after_read
receive ReadMode.block t s i = ok (after_read t s i.connecting (read_block s i.received))
receive ReadMode.line t s i =
    let line = i.line in
    if leb read_block_size (length line.text)
    then fault
    else ok (
        after_read t (record s { state = line.state }) i.connecting
          (line.text, line.num_read, line.ret))
receive ReadMode.until t s i = ok (quiet t false)

-- The `switch` on the connection state.
unfoldable pub rx_in : State → Transport → LinuxSocket → RxInput → Run Round
unfolding receive
rx_in State.no_connection t s i =
    let (s', back) = reset_connection s i.connecting in
    ok (quiet (record t { socket = some s' }) back)
rx_in State.server_port_setup t s i =
    let (s', heard) = listen_for_client s i.accepted in
    ok (quiet (record t { socket = some s' }) heard)
rx_in State.server_listening t s i = ok (quiet t true)
rx_in State.connected t s i = receive t.receive_mode t s i
rx_in State.unknown t s i = ok (quiet t false)

-- `m_Socket->getConnectionState(...)` and the switch; a NULL `m_Socket` faults.
unfoldable pub rx_with : Option LinuxSocket → Transport → RxInput → Run Round
unfolding rx_in
rx_with none t i = fault
rx_with (some s) t i = rx_in s.state t s i

unfoldable pub update_rx : Transport → RxInput → Run Round
unfolding rx_with
update_rx t i = rx_with t.socket t i

-- `StartComm`; `spawns` is whether `pthread_create` succeeds.
unfoldable pub start_comm : Transport → Bool → Transport × Bool
start_comm t spawns = elim t.socket [
  | none ↦ (t, false)
  | some s ↦
      if t.comm_started
      then (t, true)
      else if spawns
      then (record t { rx_done = false; comm_started = true }, true)
      else (record t { rx_done = false }, false)
]

-- The steps of `StopComm`, in their order.
pub data StopStep : Type 0 where
  close_socket set_done join : StopStep

unfoldable pub stop_order : State → List StopStep
stop_order State.server_port_setup = StopStep.close_socket ∷ StopStep.set_done ∷ StopStep.join ∷ []
stop_order _ = StopStep.set_done ∷ StopStep.join ∷ StopStep.close_socket ∷ []

unfoldable pub stop_comm : Transport → Run (Transport × List StopStep × Bool)
unfolding stop_order
stop_comm t =
    if t.comm_started
    then elim t.socket [
      | none ↦ fault
      | some s ↦ ok (
        record t { socket = some (close_connection s).0; rx_done = true; comm_started = false },
        stop_order s.state,
        true,
      )
    ]
    else ok (t, [], true)
