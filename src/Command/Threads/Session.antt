-- ===== src/Command/Threads/Session.antt =====
-- A whole session: from the constructor, `init` and `Start` to the replies to what the first client sends.
use protobuf_sandbox.Prelude.{
  ℕ, ◌≡◌, refl, sym, ap, ◌∙◌, true, false, some, none, List, [], ◌∷◌, ◌++◌, map, inl, inr, Bytes,
  ok, ok_injective, Run-cases, subst,
}
use protobuf_sandbox.Json.Node.{CJson}
use protobuf_sandbox.Json.Library.{CJsonLib}
use protobuf_sandbox.Socket.Types.{State}
use protobuf_sandbox.Socket.{LinuxSocket, Opening}
use protobuf_sandbox.Transport.{Transport, RxInput, start_comm, deliver}
use protobuf_sandbox.Transport.Framing.{cut, NoNewline}
use protobuf_sandbox.Transport.Receive.{
  run_rx, run_rx-blocks, IsReceiving, block_input, texts, advanced,
}
use protobuf_sandbox.Transport.Reconnect.{accepted_round}
use protobuf_sandbox.Command.Messages.{Protobuf, Response}
use protobuf_sandbox.Command.{Processor, new_processor, init, start}
use protobuf_sandbox.Command.Init.{IsReady, init-IsReady, init-IsUntouched}
use protobuf_sandbox.Command.Threads.{Move, run_moves, start_system}
use protobuf_sandbox.Command.Threads.Replies.{Replied}
use protobuf_sandbox.Command.Threads.Served.{IsServed}
use protobuf_sandbox.Command.Threads.Stream.{inputs_of, replies_to-run_rx}
use protobuf_sandbox.Command.Threads.Breaks.{IsSteady, run_moves_fault_iff}

-- The transport that `StartComm` leaves, and the processor that `Start` leaves.
abbrev begun : Transport → Transport
begun t = record t { rx_done = false; comm_started = true }

abbrev started : Processor → Transport → Processor
started p t = record p {
  transport = some (begun t);
  done = false;
  has_thread = true;
  running = true;
}

start-started :
    (p : Processor) (r : IsReady p) → start p true true ≡ ok (started p r.transport, true)
unfolding start start_comm
start-started p r = rw (r.has_transport) (rw (r.has_socket) (rw (r.not_started) refl))

started-IsSteady : (p : Processor) (r : IsReady p) → IsSteady (start_system (started p r.transport))
unfolding start_system
started-IsSteady p r = record {
  transport = begun r.transport;
  uses = refl;
  blocks = r.reads_blocks;
  sound = rw (r.has_socket, r.listening.state, r.listening.mode) refl;
}

-- The socket with its client.
abbrev accepted : LinuxSocket → ℕ → LinuxSocket
accepted s fd = record s { client_sock = some fd; state = State.connected }

-- The rounds in which the client is accepted and sends its blocks.
abbrev pub first_client : RxInput → ℕ → List (ℕ × Bytes) → List RxInput
first_client i fd xs = record i { accepted = some fd } ∷ map (block_input i) xs

run_rx-first_client :
    (p : Processor) (r : IsReady p) (i : RxInput) (fd : ℕ) (xs : List (ℕ × Bytes))
    → (t : Transport) × (run_rx (begun r.transport) (first_client i fd xs)
        ≡ ok (t, deliver r.transport.invoke_cnt (cut [] (texts xs)).0))
unfolding run_rx
run_rx-first_client p r i fd xs =
    let s = r.socket in
    let (listening, ss) = r.listening.listens in
    let round =
      accepted_round (begun r.transport) s fd listening i r.has_socket r.listening.state
        r.listening.mode ss in
    let t = record (begun r.transport) { socket = some (accepted s fd) } in
    let receiving : IsReceiving t (accepted s fd) fd = record {
      uses = refl;
      connected = refl;
      reads_from = refl;
      blocks = r.reads_blocks;
      calls_back = r.calls_back;
    } in
    let quiet = subst NoNewline (sym r.empty_buffer) tt in
    let blocks = run_rx-blocks xs t (accepted s fd) fd i receiving quiet in
    let last = advanced t (accepted s fd) (cut [] (t.cmd_buffer ++ texts xs)) in
    (
      last,
      rw round (
          rw blocks (
            ap (λ b. ok (last, deliver r.transport.invoke_cnt (cut [] (b ++ texts xs)).0))
              r.empty_buffer)),
    )

module _ (lib : CJsonLib) (pb : Protobuf) where
  -- A new processor is initialized and started, both with success; then a client is accepted and sends
  -- blocks, in any schedule of the three threads' moves. Either one of its moves is a take from an empty
  -- queue, or a store or an answer to a `query` without coordinates; or the schedule runs to its end.
  -- Then the commands that the lines of the client's byte stream parse to are those done up to some
  -- command, and behind it those still open. `sendData` was called once for each that is done, in this
  -- order, with the serialized form of a response, which was handed to `send` whole unless there was no
  -- client or it is empty; `send` may have failed. The response has the command's identifier, or for a
  -- `quit` that of the response before it, and none where there is no response before it; it says OK to
  -- a `status`, success to a `start` or `stop`, a radius to a `query`, and failure to the rest.
  pub session-IsServed :
      (config : CJson) (a : Opening) (p q : Processor) (i : RxInput) (fd : ℕ)
      (xs : List (ℕ × Bytes)) (moves : List Move)
      → init lib config a new_processor ≡ ok (p, true)
      → start p true true ≡ ok (q, true)
      → inputs_of moves ≡ first_client i fd xs
      → IsServed pb none (map pb.parse (cut [] (texts xs)).0) moves q
  unfolding new_processor
  session-IsServed config a p q i fd xs moves e f inputs =
      let r = init-IsReady lib config a new_processor p e in
      let (empty, latest, response, unborn) =
        init-IsUntouched lib config a new_processor p true e in
      let p' = started p r.transport in
      let same : p' ≡ q = ap (λ u. u.0) (ok_injective (sym (start-started p r) ∙ f)) in
      let (t, rounds) = run_rx-first_client p r i fd xs in
      subst (λ u. IsServed pb none (map pb.parse (cut [] (texts xs)).0) moves u) same
        (elim (Run-cases (run_moves pb moves (start_system p'))) [
          | inl z ↦
              inl ((run_moves_fault_iff pb moves (start_system p') (started-IsSteady p r)).0 z)
          | inr (s, z) ↦
              let (done, kept, replied) =
                replies_to-run_rx pb p' (begun r.transport) t r.transport.invoke_cnt
                  (cut [] (texts xs)).0 moves s refl
                  (ap (run_rx (begun r.transport)) inputs ∙ rounds) z in
              inr (
                s,
                z,
                (
                  done,
                  ap (λ l. l ++ map pb.parse (cut [] (texts xs)).0) (sym empty) ∙ kept,
                  subst (λ (u : Response). Replied pb u.id done s.replies) response replied,
                ),
              )
        ])
