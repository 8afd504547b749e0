-- ===== src/Command/Threads/Stream.antt =====
-- From the bytes that arrive to the replies, in every schedule of the threads.
use mathlib.Core.List.{append-nil, append_assoc}
use protobuf_sandbox.Prelude.{
  subst, list_laws, ℕ, suc, ◌≡◌, refl, sym, ap, ◌∙◌, Bool, true, false, some, List, [], ◌∷◌, ◌++◌,
  map, Bytes, ok, >>=_through,
}
use protobuf_sandbox.Json.Node.{Double}
use protobuf_sandbox.Socket.{LinuxSocket}
use protobuf_sandbox.Transport.{Transport, RxInput, Round, update_rx, deliver}
use protobuf_sandbox.Transport.Framing.{cut, NoNewline}
use protobuf_sandbox.Transport.Receive.{run_rx, run_rx-blocks, IsReceiving, block_input, texts}
use protobuf_sandbox.Command.Messages.{Command, Protobuf, set_center_point}
use protobuf_sandbox.Command.{Processor, recv_cb_routine, answer, socket_of, send_to, program_loop}
use protobuf_sandbox.Command.Threads.{
  Phase, idle, taken, replying, System, Move, receive, push, push_move, take, answer_it, send_it,
  work, first_response, receive_move, take_move, answer_move, send_move, work_move, move_in,
  run_moves, start_system,
}
use protobuf_sandbox.Command.Threads.Replies.{in_flight, Replied, recv_all_lem}
use protobuf_sandbox.Command.Threads.Order.{schedule_order}

-- What the transport's thread gets in a schedule.
abbrev pub inputs_of : List Move → List RxInput
inputs_of [] = []
inputs_of (receive i ∷ moves) = i ∷ inputs_of moves
inputs_of (_ ∷ moves) = inputs_of moves

abbrev pub commands_of : Protobuf → List (ℕ × Bytes) → List Command
commands_of pb calls = map (λ m. pb.parse m.1) calls

-- The commands that were pushed, and behind them those of the calls that are still to be made.
abbrev pub arrived : Protobuf → System → List Command
arrived pb s = s.received ++ commands_of pb s.pending

-- The commands of some calls have arrived, and the system has the transport that they left.
abbrev Received : Protobuf → System → Transport → List (ℕ × Bytes) → System → Type 0
Received pb s t calls s' =
    (arrived pb s' ≡ arrived pb s ++ commands_of pb calls) × (s'.processor.transport ≡ some t)

-- Another move keeps what has arrived, and the transport.
abbrev Kept : Protobuf → System → System → Type 0
Kept pb s s' = (arrived pb s' ≡ arrived pb s) × (s'.processor.transport ≡ s.processor.transport)

module _ (pb : Protobuf) where
  take_move-Kept :
      (running : Bool) (cmds : List Command) (s s' : System)
      → take_move running cmds s ≡ ok s'
      → Kept pb s s'
  unfolding take_move
  take_move-Kept false cmds s s' e = (cc, cc)
  take_move-Kept true [] s s' e = cc
  take_move-Kept true (cmd ∷ cmds) s s' e = (cc, cc)

  push_move-Kept :
      (msgs : List (ℕ × Bytes)) (s s' : System)
      → s.pending ≡ msgs
      → push_move pb msgs s ≡ ok s'
      → Kept pb s s'
  unfolding push_move recv_cb_routine
  push_move-Kept [] s s' q e = (cc, cc)
  push_move-Kept ((n, text) ∷ msgs) s s' q e =
      let new = pb.parse text ∷ [] in
      let made : record s {
        processor = record s.processor { cmd_fifo = s.processor.cmd_fifo ++ new };
        pending = msgs;
        received = s.received ++ new;
      }
          ≡ s' =
        cc in
      subst (λ (u : System). Kept pb s u) made
        (
          append_assoc s.received new (commands_of pb msgs)
              ∙ ap (λ l. s.received ++ commands_of pb l) (sym q),
          refl,
        )

  answer_move-Kept : (cmd : Command) (s s' : System) → answer_move pb cmd s ≡ ok s' → Kept pb s s'
  unfolding answer_move
  answer_move-Kept cmd s s' e =
      let (r, found, f) =
        >>=_through _
          (answer cmd s.processor.latest_result (first_response pb cmd s.processor.response)) e in
      (cc, cc)

  send_move-Kept : (sends : Bool) (s s' : System) → send_move pb sends s ≡ ok s' → Kept pb s s'
  unfolding send_move
  send_move-Kept sends s s' e =
      let (out, found, f) =
        >>=_through _ (send_to (socket_of s.processor) (pb.serialize s.processor.response) sends)
          e in
      (cc, cc)

  work_move-Kept :
      (radius x y : Double) (s s' : System) → work_move radius x y s ≡ ok s' → Kept pb s s'
  unfolding work_move program_loop
  work_move-Kept radius x y s s' e =
      let p = s.processor in
      let (r, found, f) = >>=_through _ (program_loop p radius x y) e in
      let (a, e0, f0) = >>=_through _ (set_center_point 0 x p.latest_result.center_point) found in
      let (b, e1, f1) = >>=_through _ (set_center_point 1 y a) f0 in (cc, cc)

  receive_move-Received :
      (t : Transport) (i : RxInput) (s s' : System)
      → receive_move pb (some t) i s ≡ ok s'
      → (r : Round) × (update_rx t i ≡ ok r) × Received pb s r.transport r.delivered s'
  unfolding receive_move
  receive_move-Received t i s s' e =
      let (r, found, f) = >>=_through _ (update_rx t i) e in
      let all = recv_all_lem pb s.pending (record s.processor { transport = some r.transport }) in
      (r, found, (cc, cc (all)))

  -- A move of the main thread or of the worker.
  move_in-Kept :
      (phase : Phase) (m : Move) (s s' : System)
      → inputs_of (m ∷ []) ≡ []
      → move_in pb phase m s ≡ ok s'
      → Kept pb s s'
  unfolding move_in
  move_in-Kept phase (receive i) s s' h e = cc
  move_in-Kept phase push s s' h e = push_move-Kept s.pending s s' refl e
  move_in-Kept phase (work radius x y) s s' h e = work_move-Kept radius x y s s' e
  move_in-Kept idle take s s' h e = take_move-Kept s.processor.running s.processor.cmd_fifo s s' e
  move_in-Kept (taken cmd) answer_it s s' h e = answer_move-Kept cmd s s' e
  move_in-Kept (replying cmd) (send_it sends) s s' h e = send_move-Kept sends s s' e
  move_in-Kept _ _ s s' h e = (cc, cc)

  -- What a schedule receives is what the rounds of the transport's thread alone deliver.
  run_moves-Received :
      (moves : List Move) (s s' : System) (t : Transport)
      → s.processor.transport ≡ some t
      → run_moves pb moves s ≡ ok s'
      → (t' : Transport) × (calls : List (ℕ × Bytes)) × (run_rx t (inputs_of moves)
          ≡ ok (t', calls))
        × Received pb s t' calls s'
  unfolding run_moves run_rx
  run_moves-Received [] s s' t q e =
      let same : s ≡ s' = cc in
      (
        t,
        [],
        refl,
        (
          ap (arrived pb) (sym same) ∙ sym (append-nil (arrived pb s)),
          ap (λ (u : System). u.processor.transport) (sym same) ∙ q,
        ),
      )
  run_moves-Received (receive i ∷ moves) s s' t q e =
      let (next, found, f) = >>=_through _ (move_in pb s.phase (receive i) s) e in
      let (r, round, (got, has)) =
        receive_move-Received t i s next (ap (λ o. receive_move pb o i s) (sym q) ∙ found) in
      let (t', calls, rounds, (later, ends)) = run_moves-Received moves next s' r.transport has f in
      (
        t',
        r.delivered ++ calls,
        rw (round) (rw (rounds) refl),
        (later ∙ ap (λ l. l ++ commands_of pb calls) got ∙ simp list_laws, ends),
      )
  run_moves-Received (m ∷ moves) s s' t q e =
      let (next, found, f) = >>=_through _ (move_in pb s.phase m s) e in
      let (same, keeps) = move_in-Kept s.phase m s next refl found in
      let (t', calls, rounds, (later, ends)) = run_moves-Received moves next s' t (keeps ∙ q) f in
      (t', calls, rounds, (later ∙ ap (λ l. l ++ commands_of pb calls) same, ends))

  commands_of-deliver :
      (strs : List Bytes) (n : ℕ) → commands_of pb (deliver n strs) ≡ map pb.parse strs
  unfolding deliver
  commands_of-deliver [] n = refl
  commands_of-deliver (s ∷ strs) n = ap (λ l. pb.parse s ∷ l) (commands_of-deliver strs (suc n))

  -- The replies to what the rounds of the transport's thread alone deliver.
  pub replies_to-run_rx :
      (p : Processor) (t t2 : Transport) (n : ℕ) (strs : List Bytes) (moves : List Move)
      (s : System)
      → p.transport ≡ some t
      → run_rx t (inputs_of moves) ≡ ok (t2, deliver n strs)
      → run_moves pb moves (start_system p) ≡ ok s
      → (done : List Command) × (p.cmd_fifo ++ map pb.parse strs
          ≡ (done ++ (in_flight s.phase ++ s.processor.cmd_fifo)) ++ commands_of pb s.pending)
        × Replied pb p.response.id done s.replies
  unfolding start_system
  replies_to-run_rx p t t2 n strs moves s q known e =
      let (done, kept, replied) = schedule_order pb p moves s e in
      let (t', calls, rounds, (got, has)) = run_moves-Received moves (start_system p) s t q e in
      let same : calls ≡ deliver n strs = cc (rounds, known) in
      (
        done,
        sym (
              got
              ∙ ap (λ l. l ++ commands_of pb calls) (append-nil p.cmd_fifo)
              ∙ ap (λ l. p.cmd_fifo ++ l) (ap (commands_of pb) same ∙ commands_of-deliver strs n))
            ∙ ap (λ l. l ++ commands_of pb s.pending) kept,
        replied,
      )

  -- Blocks arrive at a processor with a transport that reads blocks from a connected socket, has a
  -- callback and holds no newline yet, in any schedule of the three threads that runs into no undefined
  -- behaviour. Then the commands that waited, followed by those that the lines of the byte stream parse
  -- to, are the ones done, and behind them those still open; and those done are replied to.
  pub stream_replies :
      (p : Processor) (t : Transport) (sock : LinuxSocket) (fd : ℕ) (i : RxInput)
      (xs : List (ℕ × Bytes)) (moves : List Move) (s : System)
      → p.transport ≡ some t
      → IsReceiving t sock fd
      → NoNewline t.cmd_buffer
      → inputs_of moves ≡ map (block_input i) xs
      → run_moves pb moves (start_system p) ≡ ok s
      → (done : List Command) × (p.cmd_fifo ++ map pb.parse (cut [] (t.cmd_buffer ++ texts xs)).0
          ≡ (done ++ (in_flight s.phase ++ s.processor.cmd_fifo)) ++ commands_of pb s.pending)
        × Replied pb p.response.id done s.replies
  stream_replies p t sock fd i xs moves s q h k inputs e =
      replies_to-run_rx p t _ t.invoke_cnt (cut [] (t.cmd_buffer ++ texts xs)).0 moves s q
        (ap (run_rx t) inputs ∙ run_rx-blocks xs t sock fd i h k) e
