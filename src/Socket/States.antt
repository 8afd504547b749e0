-- ===== src/Socket/States.antt =====
-- The connection states of `LinuxSocket`.
use protobuf_sandbox.Prelude.{ℕ, ◌≡◌, Bool, true, false, Option, none, some, arith, Bytes}
use protobuf_sandbox.Prelude.Int.{ℤ}
use protobuf_sandbox.Socket.Types.{Mode, State}
use protobuf_sandbox.Socket.{
  LinuxSocket, Opening, Connecting, new_socket, init, listen_for_client, reset_connection,
}

-- What a state says of the socket: two states are never used, only a server waits for a client, and
-- a connected socket has a descriptor to read from.
abbrev pub fits : State → Mode → Option ℕ → Bool
fits State.unknown mode client = false
fits State.server_listening mode client = false
fits State.no_connection mode client = true
fits State.server_port_setup Mode.server client = true
fits State.server_port_setup Mode.client client = false
fits State.connected mode none = false
fits State.connected mode (some fd) = true

abbrev pub IsSound : LinuxSocket → Type 0
IsSound s = fits s.state s.mode s.client_sock ≡ true

-- `init` on a new socket leaves a sound one, whatever the system answers.
pub init-IsSound :
    (mode : Mode) (ip : Bytes) (port : ℤ) (a : Opening) → IsSound (init new_socket mode ip port a).0
unfolding init new_socket
init-IsSound Mode.client ip port a = ground arith
init-IsSound Mode.server ip port a = ground arith

-- `ResetConnection` on a sound socket leaves a sound one, whatever the system answers.
pub reset_connection-IsSound :
    (s : LinuxSocket) (a : Connecting) → IsSound s → IsSound (reset_connection s a).0
unfolding reset_connection
reset_connection-IsSound s a h = ground arith

-- `ListenForClient` on a sound socket that waits for a client leaves a sound one, whether one came.
pub listen_for_client-IsSound :
    (s : LinuxSocket) (accepted : Option ℕ)
    → s.state ≡ State.server_port_setup
    → IsSound s
    → IsSound (listen_for_client s accepted).0
unfolding listen_for_client
listen_for_client-IsSound s accepted e h = ground arith
