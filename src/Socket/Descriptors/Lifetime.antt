-- ===== src/Socket/Descriptors/Lifetime.antt =====
-- The descriptors of a socket from its constructor to its destructor.
use protobuf_sandbox.Prelude.{
  zero, suc, ◌++◌, ℕ, ◌+◌, ◌≡◌, refl, true, Option, none, some, List, [], ◌∷◌, arith, length, All,
  Bytes,
}
use protobuf_sandbox.Prelude.Int.{ℤ}
use protobuf_sandbox.Socket.Types.{Mode}
use protobuf_sandbox.Socket.{
  LinuxSocket, Connecting, Opening, new_socket, reconnect, connect_as_client, init_as, init,
  listen_in, listen_for_client, reset_in, reset_connection, close_connection,
}
use protobuf_sandbox.Socket.Descriptors.{
  Use, initialize, listen, reset, close, after_use, run_uses, close_calls, delete_calls,
  lifetime_calls, Granted, ClosesOpen, after_calls, one, forgets, forgotten,
}
use protobuf_sandbox.Socket.Descriptors.Owned.{Owned, Granted-append, Fine-append}
use protobuf_sandbox.Socket.Descriptors.Uses.{run_uses-Owned, close-Owned}

-- Whatever is done with a socket from its constructor to its destructor, and whatever the system
-- answers, if it hands out no descriptor that is open: the socket closes only descriptors that are open,
-- so none twice and none of another, and at the end as many stay open as were overwritten in a member
-- that held one.
pub lifetime_calls-ClosesOpen :
    (us : List Use)
    → Granted (lifetime_calls us) []
    → ClosesOpen (lifetime_calls us) []
      × (length (after_calls (lifetime_calls us) []) ≡ forgotten new_socket us)
unfolding lifetime_calls new_socket delete_calls close_calls
lifetime_calls-ClosesOpen us g =
    let s = (run_uses new_socket us).0 in
    let calls = (run_uses new_socket us).1 in
    let fresh : Owned none none [] 0 = record {
      client_open = tt;
      server_open = tt;
      apart = tt;
      size = refl;
    } in
    let (g1, g2) = Granted-append calls (delete_calls s) [] g in
    let (shut, owned) = run_uses-Owned us new_socket [] 0 fresh g1 in
    let (all, left) =
      Fine-append calls (delete_calls s) none none [] _ shut
        (close-Owned s (after_calls calls []) _ owned) in
    (all, omega (arith, left.size))

-- A use that does not make a server of the socket.
abbrev pub IsClientUse : Use → Type 0
IsClientUse (initialize Mode.server ip port a) = ⊥
IsClientUse u = Unit

-- A client has no socket to listen on.
abbrev IsClient : LinuxSocket → Type 0
IsClient s = (s.mode ≡ Mode.client) × (s.server_sock ≡ none)

after_use-IsClient :
    (s : LinuxSocket) (u : Use)
    → IsClientUse u
    → IsClient s
    → IsClient (after_use s u) × (forgets s u ≡ 0)
unfolding after_use init init_as listen_for_client listen_in reset_connection reset_in
    close_connection connect_as_client reconnect
after_use-IsClient s (initialize Mode.server ip port a) c k = elim c [ ]
after_use-IsClient s (initialize Mode.client ip port a) c (m, v) =
    ((ground arith, ground arith), refl)
after_use-IsClient s (listen accepted) c (m, v) = ((ground arith, ground arith), ground arith)
after_use-IsClient s (reset a) c (m, v) = ((ground arith, ground arith), refl)
after_use-IsClient s close c (m, v) = ((m, refl), refl)

forgotten-IsClient :
    (us : List Use) (s : LinuxSocket) → All IsClientUse us → IsClient s → forgotten s us ≡ 0
forgotten-IsClient [] s h c = refl
forgotten-IsClient (u ∷ us) s (h, hs) c =
    let (next, none_lost) = after_use-IsClient s u h c in
    omega (arith, none_lost, forgotten-IsClient us (after_use s u) hs next)

no_length : (fds : List ℕ) → length fds ≡ 0 → fds ≡ []
no_length [] e = refl
no_length (fd ∷ fds) e = absurd (omega (arith, e))

-- A socket that is made a client, and no server later, has closed every descriptor at the end of its
-- life, however often it connects again and whatever fails.
pub client_lifetime :
    (ip : Bytes) (port : ℤ) (a : Opening) (us : List Use)
    → All IsClientUse us
    → Granted (lifetime_calls (initialize Mode.client ip port a ∷ us)) []
    → after_calls (lifetime_calls (initialize Mode.client ip port a ∷ us)) [] ≡ []
unfolding new_socket after_use init init_as connect_as_client reconnect
client_lifetime ip port a us h g =
    let life = initialize Mode.client ip port a ∷ us in
    let (shut, left) = lifetime_calls-ClosesOpen life g in
    let first : IsClient (after_use new_socket (initialize Mode.client ip port a)) =
      (ground arith, ground arith) in
    let calm =
      forgotten-IsClient us (after_use new_socket (initialize Mode.client ip port a)) h first in
    no_length (after_calls (lifetime_calls life) []) (omega (arith, left, calm))

-- The calls of `ListenForClient` at which no client waits.
abbrev pub polls : ℕ → List Use
polls zero = []
polls (suc n) = listen none ∷ polls n

-- A server that takes one client after the other, with a number of such calls in front of each, resets
-- the connection behind each, and calls it at least once more behind the last.
abbrev pub clients : List (ℕ × ℕ) → ℕ → Connecting → List Use
clients [] k a = polls k ++ listen none ∷ []
clients ((n, fd) ∷ cs) k a = polls n ++ listen (some fd) ∷ reset a ∷ clients cs k a

-- A server that listens on a socket, with the client that it holds.
abbrev IsServing : LinuxSocket → ℕ → Option ℕ → Type 0
IsServing s listening c =
    (s.mode ≡ Mode.server) × (s.server_sock ≡ some listening) × (s.client_sock ≡ c)

listen-IsServing :
    (s : LinuxSocket) (listening : ℕ) (c x : Option ℕ)
    → IsServing s listening c
    → IsServing (after_use s (listen x)) listening x × (forgets s (listen x) ≡ one c)
unfolding after_use listen_for_client listen_in
listen-IsServing s listening c none (m, v, k) =
    ((ground arith, ground arith, ground arith), ground arith)
listen-IsServing s listening c (some fd) (m, v, k) =
    ((ground arith, ground arith, ground arith), ground arith)

reset-IsServing :
    (s : LinuxSocket) (listening : ℕ) (c : Option ℕ) (a : Connecting)
    → IsServing s listening c
    → IsServing (after_use s (reset a)) listening c
unfolding after_use reset_connection reset_in
reset-IsServing s listening c a (m, v, k) = (ground arith, ground arith, ground arith)

-- The first of the calls overwrites the client's descriptor, and the others find none.
polls-forgotten :
    (n : ℕ) (x : Option ℕ) (us : List Use) (s : LinuxSocket) (listening : ℕ) (c : Option ℕ)
    → IsServing s listening c
    → (next : LinuxSocket) × IsServing next listening x
      × (forgotten s (polls n ++ listen x ∷ us) ≡ one c + forgotten next us)
polls-forgotten zero x us s listening c h =
    let (next, lost) = listen-IsServing s listening c x h in
    (after_use s (listen x), next, omega (arith, lost))
polls-forgotten (suc n) x us s listening c h =
    let (later, lost) = listen-IsServing s listening c none h in
    let (next, serves, e) =
      polls-forgotten n x us (after_use s (listen none)) listening none later in
    (next, serves, omega (arith, lost, e))

clients-forgotten :
    (cs : List (ℕ × ℕ)) (k : ℕ) (a : Connecting) (s : LinuxSocket) (listening : ℕ) (c : Option ℕ)
    → IsServing s listening c
    → forgotten s (clients cs k a) ≡ one c + length cs
clients-forgotten [] k a s listening c h =
    let (next, serves, e) = polls-forgotten k none [] s listening c h in omega (arith, e)
clients-forgotten ((n, fd) ∷ cs) k a s listening c h =
    let (next, serves, e) =
      polls-forgotten n (some fd) (reset a ∷ clients cs k a) s listening c h in
    let again =
      clients-forgotten cs k a (after_use next (reset a)) listening (some fd)
        (reset-IsServing next listening (some fd) a serves) in
    omega (arith, e, again)

-- A server is set up, and calls `ListenForClient` again and again: clients come one after the other,
-- with any number of calls at which none waits in front of each and at least one behind the last, and
-- the connection is reset behind each. Then the descriptor of every client stays open for ever:
-- `ResetConnection` does not close it, and the next `accept` overwrites it, even with -1.
pub clients_lifetime :
    (ip : Bytes) (port : ℤ) (o : Opening) (listening : ℕ) (cs : List (ℕ × ℕ)) (k : ℕ)
    (a : Connecting)
    → o.fd ≡ some listening
    → o.binds ≡ true
    → o.listens ≡ true
    → Granted (lifetime_calls (initialize Mode.server ip port o ∷ clients cs k a)) []
    → length (after_calls (lifetime_calls (initialize Mode.server ip port o ∷ clients cs k a)) [])
      ≡ length cs
unfolding new_socket after_use init init_as
clients_lifetime ip port o listening cs k a opens binds listens g =
    let life = initialize Mode.server ip port o ∷ clients cs k a in
    let (shut, left) = lifetime_calls-ClosesOpen life g in
    let s = after_use new_socket (initialize Mode.server ip port o) in
    let first : IsServing s listening none = (ground arith, ground arith, ground arith) in
    omega (arith, left, clients-forgotten cs k a s listening none first)
