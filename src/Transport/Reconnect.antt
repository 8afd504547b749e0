-- ===== src/Transport/Reconnect.antt =====
-- Rounds around the loss of a client, and the socket that a round leaves.
use protobuf_sandbox.Prelude.{
  ℕ, suc, ◌≡◌, refl, ap, ◌∙◌, Bool, true, false, none, some, List, [], ◌∷◌, ◌++◌, map, arith, Bytes,
  ok, Option-cases, inl, inr,
}
use protobuf_sandbox.Prelude.Int.{ℤ, pos}
use protobuf_sandbox.Socket.Types.{Mode, State}
use protobuf_sandbox.Socket.{
  LinuxSocket, Received, Connecting, reset_connection, listen_for_client, read_block,
}
use protobuf_sandbox.Socket.States.{
  IsSound, fits, reset_connection-IsSound, listen_for_client-IsSound,
}
use protobuf_sandbox.Transport.{
  Transport, ReadMode, RxInput, Round, quiet, update_rx, deliver, after_read, rx_in, rx_with,
  receive,
}
use protobuf_sandbox.Transport.Framing.{cut, NoNewline}
use protobuf_sandbox.Transport.Receive.{
  run_rx, run_rx-blocks, IsReceiving, block_input, texts, advanced,
}

-- There is a socket, and its state fits its members.
abbrev pub has_sound_socket : Transport → Bool
has_sound_socket t = elim t.socket [ none ↦ false | some s ↦ fits s.state s.mode s.client_sock ]

after_read_sound :
    (t : Transport) (s : LinuxSocket) (a : Connecting) (text : Bytes) (n : ℤ) (ret : Bool)
    → IsSound s
    → has_sound_socket (after_read t s a (text, n, ret)).transport ≡ true
unfolding after_read
after_read_sound t s a text n true h = ground arith
after_read_sound t s a text n false h = reset_connection-IsSound s a h

-- A round of the receiving thread in block mode, on a transport with a sound socket, ends without a
-- fault and leaves such a transport, whatever the system answers.
pub update_rx_sound :
    (t : Transport) (i : RxInput)
    → has_sound_socket t ≡ true
    → t.receive_mode ≡ ReadMode.block
    → (r : Round) × (update_rx t i ≡ ok r) × (has_sound_socket r.transport ≡ true)
unfolding update_rx
update_rx_sound t i h m = elim (Option-cases t.socket) [
  | inl z ↦ ground arith
  | inr (s, z) ↦ by_state s z s.state refl (rw z at h)
]
  where
    at : (s : LinuxSocket) → t.socket ≡ some s → update_rx t i ≡ rx_in s.state t s i
    at s z = ap (λ o. rx_with o t i) z

    by_state :
        (s : LinuxSocket)
        → t.socket ≡ some s
        → (st : State) → s.state ≡ st
        → IsSound s
        → (r : Round) × (update_rx t i ≡ ok r) × (has_sound_socket r.transport ≡ true)
    by_state s z State.unknown e k = ground arith
    by_state s z State.server_listening e k = ground arith
    by_state s z State.no_connection e k =
        (_, at s z ∙ ap (λ st. rx_in st t s i) e, reset_connection-IsSound s i.connecting k)
    by_state s z State.server_port_setup e k =
        (_, at s z ∙ ap (λ st. rx_in st t s i) e, listen_for_client-IsSound s i.accepted e k)
    by_state s z State.connected e k =
        let (text, n, ret) = read_block s i.received in
        (
          _,
          at s z ∙ ap (λ st. rx_in st t s i) e ∙ ap (λ mode. receive mode t s i) m,
          after_read_sound t s i.connecting text n ret k,
        )

-- The rounds in which the client closes its end and the server takes the next client.
abbrev pub change_client : RxInput → ℕ → List RxInput
change_client i fd = record i { received = Received.closed } ∷ record i { accepted = some fd } ∷ []

closed_round :
    (t : Transport) (s : LinuxSocket) (fd port : ℕ) (i : RxInput)
    → IsReceiving t s fd
    → s.mode ≡ Mode.server
    → s.port ≡ pos (suc port)
    → update_rx t (record i { received = Received.closed })
      ≡ ok (quiet (record t { socket = some (record s { state = State.server_port_setup }) }) true)
unfolding update_rx read_block reset_connection
closed_round t s fd port i h m p = ground arith

pub accepted_round :
    (t : Transport) (s : LinuxSocket) (next listening : ℕ) (i : RxInput)
    → t.socket ≡ some s
    → s.state ≡ State.server_port_setup
    → s.mode ≡ Mode.server
    → s.server_sock ≡ some listening
    → update_rx t (record i { accepted = some next })
      ≡ ok (
          quiet
            (record t {
              socket = some (record s { client_sock = some next; state = State.connected });
            })
            true)
unfolding update_rx listen_for_client
accepted_round t s next listening i u e m ss = ground arith

change_client_lem :
    (t : Transport) (s : LinuxSocket) (fd next listening port : ℕ) (i : RxInput)
    (rest : List RxInput)
    → IsReceiving t s fd
    → s.mode ≡ Mode.server
    → s.server_sock ≡ some listening
    → s.port ≡ pos (suc port)
    → run_rx t (change_client i next ++ rest)
      ≡ run_rx (record t { socket = some (record s { client_sock = some next }) }) rest
unfolding run_rx
change_client_lem t s fd next listening port i rest h m ss p =
    let s' = record s { state = State.server_port_setup } in
    rw (closed_round t s fd port i h m p) (
      rw (accepted_round (record t { socket = some s' }) s' next listening i refl refl m ss)
        (ground (arith, h.connected)))

-- When the client of a server that reads blocks goes and the next is accepted, what it sent of a command stays in `m_CmdBuffer`: it comes in
-- front of the first command of the next client.
pub change_client-blocks :
    (xs : List (ℕ × Bytes)) (t : Transport) (s : LinuxSocket) (fd next listening port : ℕ)
    (i : RxInput)
    → IsReceiving t s fd
    → s.mode ≡ Mode.server
    → s.server_sock ≡ some listening
    → s.port ≡ pos (suc port)
    → NoNewline t.cmd_buffer
    → run_rx t (change_client i next ++ map (block_input i) xs)
      ≡ ok (
        advanced t (record s { client_sock = some next }) (cut [] (t.cmd_buffer ++ texts xs)),
        deliver t.invoke_cnt (cut [] (t.cmd_buffer ++ texts xs)).0,
      )
change_client-blocks xs t s fd next listening port i h m ss p k =
    change_client_lem t s fd next listening port i (map (block_input i) xs) h m ss p
    ∙ run_rx-blocks xs (record t { socket = some (record s { client_sock = some next }) })
        (record s { client_sock = some next }) next i
        (record {
          uses = refl;
          connected = h.connected;
          reads_from = refl;
          blocks = h.blocks;
          calls_back = h.calls_back;
        })
        k
