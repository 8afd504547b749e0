-- ===== src/Tests/Descriptors.antt =====
-- The life of concrete sockets.
use protobuf_sandbox.Prelude.{
  ℕ, ◌+◌, ◌≡◌, refl, arith, ok, true, false, none, some, List, [], ◌∷◌, codes, length,
}
use protobuf_sandbox.Prelude.Int.{pos}
use protobuf_sandbox.Socket.Types.{Mode}
use protobuf_sandbox.Socket.{
  LinuxSocket, read_block, Connecting, Opening, new_socket, init, init_as, reconnect,
  connect_as_client, listen_for_client, listen_in, reset_connection, reset_in, close_connection,
}
use protobuf_sandbox.Transport.{Transport, RxInput, new_transport, update_rx}
use protobuf_sandbox.Transport.Receive.{run_rx}
use protobuf_sandbox.Transport.Reconnect.{change_client}
use protobuf_sandbox.Transport.Uses.{uses_of, run_rx-Owned}
use protobuf_sandbox.Tests.Stream.{server, transport, input}
use protobuf_sandbox.Socket.Descriptors.Owned.{Owned, Fine}
use protobuf_sandbox.Socket.Descriptors.{
  Use, initialize, listen, reset, close, close_if, reconnect_calls, init_calls, listen_calls,
  reset_calls, close_calls, delete_calls, after_use, calls_of, run_uses, lifetime_calls, Granted,
  ClosesOpen, after_calls, forgotten,
}
use protobuf_sandbox.Socket.Descriptors.Lifetime.{
  lifetime_calls-ClosesOpen, client_lifetime, clients, clients_lifetime,
}

abbrev answers : ℕ → Connecting
answers fd = record { fd = some fd; option_set = true; connects = false }

abbrev opening : ℕ → Opening
opening fd = record { fd = some fd; binds = true; listens = true; connecting = answers fd }

-- A server that polls after the loss of its client, is closed, and ends as a client; numbers are used
-- again.
abbrev uses : List Use
uses =
    initialize Mode.server (codes "127.0.0.1") (pos 8080) (opening 3)
    ∷ listen (some 5)
    ∷ reset (answers 9)
    ∷ listen none
    ∷ listen (some 6)
    ∷ close
    ∷ initialize Mode.client (codes "127.0.0.1") (pos 8080) (opening 3)
    ∷ reset (answers 3)
    ∷ []

uses-Granted : Granted (lifetime_calls uses) []
unfolding lifetime_calls run_uses new_socket calls_of after_use init init_as reconnect
    connect_as_client listen_for_client listen_in reset_connection reset_in close_connection
    init_calls reconnect_calls listen_calls reset_calls close_calls delete_calls close_if
uses-Granted = (refl, (refl, (refl, (refl, (refl, tt)))))

lifetime_calls-ClosesOpen_example :
    ClosesOpen (lifetime_calls uses) []
    × (length (after_calls (lifetime_calls uses) []) ≡ forgotten new_socket uses)
lifetime_calls-ClosesOpen_example = lifetime_calls-ClosesOpen uses uses-Granted

-- The client of which a connection fails and is tried again.
abbrev client_uses : List Use
client_uses = reset (answers 3) ∷ listen none ∷ reset (answers 4) ∷ close ∷ []

client_uses-Granted :
    Granted
      (lifetime_calls
        (initialize Mode.client (codes "127.0.0.1") (pos 8080) (opening 3) ∷ client_uses))
      []
unfolding lifetime_calls run_uses new_socket calls_of after_use init init_as reconnect
    connect_as_client listen_for_client listen_in reset_connection reset_in close_connection
    init_calls reconnect_calls listen_calls reset_calls close_calls delete_calls close_if
client_uses-Granted = (refl, (refl, (refl, tt)))

client_lifetime_example :
    after_calls
      (lifetime_calls
        (initialize Mode.client (codes "127.0.0.1") (pos 8080) (opening 3) ∷ client_uses))
      []
    ≡ []
client_lifetime_example =
    client_lifetime (codes "127.0.0.1") (pos 8080) (opening 3) client_uses
      (tt, (tt, (tt, (tt, tt)))) client_uses-Granted

abbrev server_uses : List Use
server_uses =
    initialize Mode.server (codes "127.0.0.1") (pos 8080) (opening 3)
    ∷ clients ((0, 5) ∷ (2, 6) ∷ []) 1 (answers 9)

server_uses-Granted : Granted (lifetime_calls server_uses) []
unfolding lifetime_calls run_uses new_socket calls_of after_use init init_as reconnect
    connect_as_client listen_for_client listen_in reset_connection reset_in close_connection
    init_calls reconnect_calls listen_calls reset_calls close_calls delete_calls close_if
server_uses-Granted = (refl, (refl, (refl, tt)))

clients_lifetime_example : length (after_calls (lifetime_calls server_uses) []) ≡ 2
clients_lifetime_example =
    clients_lifetime (codes "127.0.0.1") (pos 8080) (opening 3) 3 ((0, 5) ∷ (2, 6) ∷ []) 1
      (answers 9) refl refl refl server_uses-Granted

-- The client of a connected server goes, and the next one comes.
abbrev rounds : List RxInput
rounds = change_client input 6

abbrev turned_over : Transport
turned_over = record transport { socket = some (record server { client_sock = some 6 }) }

rounds_run : run_rx transport rounds ≡ ok (turned_over, [])
unfolding run_rx update_rx read_block reset_connection listen_for_client new_transport
rounds_run = refl

server-Owned : Owned (some 5) (some 3) (5 ∷ 3 ∷ []) 0
server-Owned = record {
  client_open = refl;
  server_open = refl;
  apart = λ e. absurd (omega (arith, e));
  size = refl;
}

rounds-Granted : Granted (run_uses server (uses_of server rounds)).1 (5 ∷ 3 ∷ [])
unfolding run_uses calls_of after_use reset_connection reset_in listen_for_client listen_in
    read_block reset_calls listen_calls
rounds-Granted = (refl, tt)

run_rx-Owned_example :
    (s : LinuxSocket) × (turned_over.socket ≡ some s)
    × Fine
        (run_uses server (uses_of server rounds)).1
        s.client_sock
        s.server_sock
        (5 ∷ 3 ∷ [])
        (forgotten server (uses_of server rounds) + 0)
unfolding new_transport
run_rx-Owned_example =
    run_rx-Owned rounds transport turned_over server [] (5 ∷ 3 ∷ []) 0 refl refl rounds_run
      server-Owned rounds-Granted
