-- ===== src/Socket.antt =====
-- `ISocket` (src/ISocket.h) and its Linux implementation `LinuxSocket` (src/LinuxSocket.cpp) as a
-- state machine. What the system calls answer is an argument of each operation; log lines and sleeps
-- are left out, and descriptors are numbers with -1 as `none`.
pub mod Types
pub mod ReadLine
pub mod States
pub mod Descriptors
use protobuf_sandbox.Prelude.{
  ℕ, Bool, true, false, Option, none, some, [], ◌∷◌, ◌==◌, if◌then◌else◌, Bytes, length,
}
use Types.{Mode, State}
use protobuf_sandbox.Prelude.Int.{ℤ, pos, negsuc}

-- The members of `LinuxSocket` that the operations read and write.
pub record LinuxSocket : Type 0 where
  pub mode : Mode
  pub state : State
  pub ip_address : Bytes
  pub port : ℤ
  pub server_sock : Option ℕ
  pub client_sock : Option ℕ
  pub has_callback : Bool

-- The constructor.
unfoldable pub new_socket : LinuxSocket
new_socket = record {
  mode = Mode.server;
  state = State.no_connection;
  ip_address = [];
  port = pos 0;
  server_sock = none;
  client_sock = none;
  has_callback = false;
}

-- The answers of `socket`, `setsockopt` and `connect` in `reconnect`.
pub record Connecting : Type 0 where
  pub fd : Option ℕ
  pub option_set : Bool
  pub connects : Bool

-- A `connect` that fails leaves the new descriptor open.
unfoldable pub reconnect : LinuxSocket → Connecting → LinuxSocket × Bool
reconnect s a = elim a.fd [
  | none ↦ (record s { client_sock = none }, false)
  | some fd ↦
      if a.option_set
      then (record s { client_sock = some fd }, a.connects)
      else (record s { client_sock = none }, false)
]

-- The answers of `socket`, `bind` and `listen` in `init`, and those of `reconnect`.
pub record Opening : Type 0 where
  pub fd : Option ℕ
  pub binds : Bool
  pub listens : Bool
  pub connecting : Connecting

-- `if (!reconnect()) state = NO_CONNECTION, false; else state = CONNECTED`, of `init` and
-- `ResetConnection`.
unfoldable pub connect_as_client : LinuxSocket × Bool → LinuxSocket × Bool
connect_as_client (s, true) = (record s { state = State.connected }, true)
connect_as_client (s, false) = (record s { state = State.no_connection }, false)

unfoldable pub init_as : Mode → LinuxSocket → Opening → LinuxSocket × Bool
unfolding connect_as_client reconnect
init_as Mode.server s a = elim a.fd [
  | none ↦ (record s { server_sock = none }, false)
  | some fd ↦
      if a.binds
      then if a.listens
        then (record s { server_sock = some fd; state = State.server_port_setup }, true)
        else (record s { server_sock = none }, false)
      else (record s { server_sock = some fd }, false)
]
init_as Mode.client s a = connect_as_client (reconnect s a.connecting)

unfoldable pub init : LinuxSocket → Mode → Bytes → ℤ → Opening → LinuxSocket × Bool
unfolding init_as
init s mode ip port a = init_as mode (record s { mode = mode; ip_address = ip; port = port }) a

-- `accept` answers with a descriptor, or with none where no client waits.
unfoldable pub listen_in : Mode → Option ℕ → LinuxSocket → Option ℕ → LinuxSocket × Bool
listen_in Mode.server (some listening) s none = (record s { client_sock = none }, true)
listen_in Mode.server (some listening) s (some fd) =
    (record s { client_sock = some fd; state = State.connected }, true)
listen_in _ _ s accepted = (s, false)

unfoldable pub listen_for_client : LinuxSocket → Option ℕ → LinuxSocket × Bool
unfolding listen_in
listen_for_client s accepted = listen_in s.mode s.server_sock s accepted

-- `ListenForTraffic` does nothing.
unfoldable pub listen_for_traffic : LinuxSocket → LinuxSocket × Bool
listen_for_traffic s = (s, true)

unfoldable pub register_recv_callback : LinuxSocket → Bool → LinuxSocket × Bool
register_recv_callback s callback = (record s { has_callback = callback }, true)

-- `sendData`: what is handed to `send`, and the value returned. `sends` is whether `send` succeeds.
unfoldable pub send_data : LinuxSocket → Bytes → Bool → Option (ℕ × Bytes) × Bool
send_data s text sends =
    if length text == 0
    then (none, true)
    else elim s.client_sock [ none ↦ (none, false) | some fd ↦ (some (fd, text), sends) ]

-- What `recv` answers: bytes, the end of the stream, or -1 with `errno`.
pub data Received : Type 0 where
  bytes : ℕ → Bytes → Received
  closed interrupted would_block failed : Received

-- `readBlock`: the bytes read, `numRead`, and the value returned.
unfoldable pub read_block : LinuxSocket → Received → Bytes × ℤ × Bool
read_block s r = elim s.client_sock [
  | none ↦ ([], pos 0, true)
  | some fd ↦ elim r [
    | Received.bytes b bs ↦ (b ∷ bs, pos (length (b ∷ bs)), true)
    | Received.closed ↦ ([], negsuc 0, false)
    | Received.interrupted ↦ ([], pos 0, true)
    | Received.would_block ↦ ([], pos 0, true)
    | Received.failed ↦ ([], pos 0, false)
  ]
]

unfoldable pub reset_in : Mode → LinuxSocket → Connecting → LinuxSocket × Bool
unfolding connect_as_client reconnect
reset_in Mode.client s a = connect_as_client (reconnect s a)
reset_in Mode.server s a = elim s.port [
  | negsuc n ↦ (s, false)
  | pos n ↦ if n == 0 then (s, false) else (record s { state = State.server_port_setup }, true)
]

unfoldable pub reset_connection : LinuxSocket → Connecting → LinuxSocket × Bool
unfolding reset_in
reset_connection s a = reset_in s.mode s a

unfoldable pub close_connection : LinuxSocket → LinuxSocket × Bool
close_connection s = (record s { client_sock = none; server_sock = none }, true)

unfoldable pub get_connection_state : LinuxSocket → State × Bool
get_connection_state s = (s.state, true)

-- The destructor, behind the closing of the descriptors.
unfoldable pub delete_socket : LinuxSocket → LinuxSocket
delete_socket s = record s { client_sock = none; server_sock = none }
