-- ===== src/Socket/Descriptors.antt =====
-- The descriptors that the operations of `LinuxSocket` (src/LinuxSocket.cpp) open and close, in the order
-- of the system calls, beside what the operations do to the members.
pub mod Lifetime
pub mod Owned
pub mod Uses
use protobuf_sandbox.Prelude.{
  ℕ, ◌+◌, ◌≡◌, Bool, true, false, ◌||◌, Option, none, some, List, [], ◌∷◌, ◌++◌, ◌==◌,
  if◌then◌else◌, Bytes,
}
use protobuf_sandbox.Prelude.Int.{ℤ}
use protobuf_sandbox.Socket.Types.{Mode}
use protobuf_sandbox.Socket.{
  LinuxSocket, Connecting, Opening, new_socket, init, listen_for_client, reset_connection,
  close_connection,
}

pub data Call : Type 0 where
  opened closed : ℕ → Call

-- `if (sock != INVALID_SOCKET) close(sock)`.
unfoldable pub close_if : Option ℕ → List Call
close_if none = []
close_if (some fd) = Call.closed fd ∷ []

unfoldable pub reconnect_calls : LinuxSocket → Connecting → List Call
unfolding close_if
reconnect_calls s a = close_if s.client_sock ++ elim a.fd [
  | none ↦ []
  | some fd ↦ Call.opened fd ∷ (if a.option_set then [] else Call.closed fd ∷ [])
]

unfoldable pub init_calls : Mode → LinuxSocket → Opening → List Call
unfolding reconnect_calls
init_calls Mode.server s a = elim a.fd [
  | none ↦ []
  | some fd ↦
      Call.opened fd ∷ (if a.binds then if a.listens then [] else Call.closed fd ∷ [] else [])
]
init_calls Mode.client s a = reconnect_calls s a.connecting

unfoldable pub listen_calls : Mode → Option ℕ → Option ℕ → List Call
listen_calls Mode.server (some listening) (some fd) = Call.opened fd ∷ []
listen_calls _ _ accepted = []

unfoldable pub reset_calls : Mode → LinuxSocket → Connecting → List Call
unfolding reconnect_calls
reset_calls Mode.client s a = reconnect_calls s a
reset_calls Mode.server s a = []

unfoldable pub close_calls : LinuxSocket → List Call
unfolding close_if
close_calls s = close_if s.client_sock ++ close_if s.server_sock

unfoldable pub delete_calls : LinuxSocket → List Call
unfolding close_if
delete_calls s = close_if s.client_sock ++ close_if s.server_sock

-- The operations that touch descriptors, with the answers of the system.
pub data Use : Type 0 where
  initialize : Mode → Bytes → ℤ → Opening → Use
  listen : Option ℕ → Use
  reset : Connecting → Use
  close : Use

unfoldable pub after_use : LinuxSocket → Use → LinuxSocket
unfolding init listen_for_client reset_connection close_connection
after_use s (initialize mode ip port a) = (init s mode ip port a).0
after_use s (listen accepted) = (listen_for_client s accepted).0
after_use s (reset a) = (reset_connection s a).0
after_use s close = (close_connection s).0

unfoldable pub calls_of : LinuxSocket → Use → List Call
unfolding init_calls listen_calls reset_calls close_calls
calls_of s (initialize mode ip port a) = init_calls mode s a
calls_of s (listen accepted) = listen_calls s.mode s.server_sock accepted
calls_of s (reset a) = reset_calls s.mode s a
calls_of s close = close_calls s

-- Operations one after the other.
unfoldable pub run_uses : LinuxSocket → List Use → LinuxSocket × List Call
unfolding after_use calls_of
run_uses s [] = (s, [])
run_uses s (u ∷ us) = let (s', calls) = run_uses (after_use s u) us in (s', calls_of s u ++ calls)

-- A socket's life, from the constructor to the destructor.
unfoldable pub lifetime_calls : List Use → List Call
unfolding new_socket run_uses delete_calls
lifetime_calls us = let (s, calls) = run_uses new_socket us in calls ++ delete_calls s

-- The descriptors that are open in the process.
abbrev pub has : ℕ → List ℕ → Bool
has fd [] = false
has fd (x ∷ xs) = fd == x || has fd xs

abbrev pub remove : ℕ → List ℕ → List ℕ
remove fd [] = []
remove fd (x ∷ xs) = if fd == x then xs else x ∷ remove fd xs

abbrev pub after_call : Call → List ℕ → List ℕ
after_call (opened fd) fds = fd ∷ fds
after_call (closed fd) fds = remove fd fds

abbrev pub after_calls : List Call → List ℕ → List ℕ
after_calls [] fds = fds
after_calls (c ∷ calls) fds = after_calls calls (after_call c fds)

-- The system gives no descriptor that is open already.
abbrev pub Granted : List Call → List ℕ → Type 0
Granted [] fds = Unit
Granted (opened fd ∷ calls) fds = (has fd fds ≡ false) × Granted calls (fd ∷ fds)
Granted (closed fd ∷ calls) fds = Granted calls (remove fd fds)

-- What the program closes is open.
abbrev pub ClosesOpen : List Call → List ℕ → Type 0
ClosesOpen [] fds = Unit
ClosesOpen (opened fd ∷ calls) fds = ClosesOpen calls (fd ∷ fds)
ClosesOpen (closed fd ∷ calls) fds = (has fd fds ≡ true) × ClosesOpen calls (remove fd fds)

abbrev pub one : Option ℕ → ℕ
one none = 0
one (some fd) = 1

-- The descriptors that an operation overwrites in their member: a server that listens forgets its
-- client, and one that is initialized again its listening socket.
abbrev pub forgets : LinuxSocket → Use → ℕ
forgets s (initialize Mode.server ip port a) = one s.server_sock
forgets s (listen accepted) = elim s.mode [
  | Mode.server ↦ elim s.server_sock [ none ↦ 0 | some fd ↦ one s.client_sock ]
  | Mode.client ↦ 0
]
forgets s u = 0

abbrev pub forgotten : LinuxSocket → List Use → ℕ
forgotten s [] = 0
forgotten s (u ∷ us) = forgets s u + forgotten (after_use s u) us
