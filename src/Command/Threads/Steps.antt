-- ===== src/Command/Threads/Steps.antt =====
-- The moves of the threads as a step relation, and what schedules reach as its closure.
use protobuf_sandbox.Prelude.{
  ℕ, Bytes, ◌≡◌, ◌↔◌, refl, sym, ap, ◌∙◌, Bool, true, false, not, ◌&&◌, Option, none, some, List,
  [], ◌∷◌, ◌++◌, map, codes, contains, ok, ◌>>=◌, >>=_through, ok_injective, subst,
}
use protobuf_sandbox.Json.Node.{Double}
use protobuf_sandbox.Socket.{LinuxSocket, send_data}
use protobuf_sandbox.Transport.{Transport, RxInput, Round, update_rx}
use protobuf_sandbox.Command.Messages.{Command, Protobuf, Response, Result, set_center_point}
use protobuf_sandbox.Command.{Processor, recv_cb_routine, answer, socket_of, send_to, program_loop}
use protobuf_sandbox.Command.Threads.{
  Phase, idle, taken, replying, System, Move, receive, push, push_move, take, answer_it, send_it,
  work, first_response, receive_move, take_move, answer_move, send_move, work_move, move_in,
  run_moves,
}
use protobuf_sandbox.Command.Queue.{recv_all}
use protobuf_sandbox.Command.Threads.Replies.{recv_all_lem}

-- What the moves leave.
abbrev pub with_round : Protobuf → System → Round → System
with_round pb s r =
    let new = map (λ m. pb.parse m.1) s.pending in
    record s {
      processor = record s.processor {
        transport = some r.transport;
        cmd_fifo = s.processor.cmd_fifo ++ new;
      };
      pending = r.delivered;
      received = s.received ++ new;
    }

abbrev pub with_push : Protobuf → System → ℕ × Bytes → List (ℕ × Bytes) → System
with_push pb s m msgs = record s {
  processor = record s.processor { cmd_fifo = s.processor.cmd_fifo ++ pb.parse m.1 ∷ [] };
  pending = msgs;
  received = s.received ++ pb.parse m.1 ∷ [];
}

abbrev pub with_taken : System → Command → List Command → System
with_taken s cmd cmds = record s {
  processor = record s.processor { cmd_fifo = cmds };
  phase = taken cmd;
}

abbrev pub with_answer : System → Command → Response → System
with_answer s cmd r = record s {
  processor = record s.processor {
    response = r;
    running =
        s.processor.running && not (contains cmd.method (codes "quit") && s.processor.exit_on_quit);
  };
  phase = replying cmd;
}

abbrev pub with_reply : System → Option (ℕ × Bytes) × Bool → System
with_reply s out = record s { phase = idle; replies = s.replies ++ out ∷ [] }

abbrev pub with_latest : System → Result → System
with_latest s latest = record s { processor = record s.processor { latest_result = latest } }

-- One step of one of the threads that returns.
pub data Step (pb : Protobuf) (s : System) : System → Type 0 where
  waits : Step pb s s
  receives :
      {t : Transport} {r : Round} (i : RxInput)
      → s.processor.transport ≡ some t
      → update_rx t i ≡ ok r
      → Step pb s (with_round pb s r)
  pushes :
      {m : ℕ × Bytes} {msgs : List (ℕ × Bytes)}
      → s.pending ≡ m ∷ msgs
      → Step pb s (with_push pb s m msgs)
  takes :
      {cmd : Command} {cmds : List Command}
      → s.phase ≡ idle
      → s.processor.running ≡ true
      → s.processor.cmd_fifo ≡ cmd ∷ cmds
      → Step pb s (with_taken s cmd cmds)
  answers :
      {cmd : Command} {r : Response}
      → s.phase ≡ taken cmd
      → answer cmd s.processor.latest_result (first_response pb cmd s.processor.response) ≡ ok r
      → Step pb s (with_answer s cmd r)
  replies :
      {cmd : Command} {sock : LinuxSocket} (sends : Bool)
      → s.phase ≡ replying cmd
      → socket_of s.processor ≡ some sock
      → Step pb s (with_reply s (send_data sock (pb.serialize s.processor.response) sends))
  stores :
      {latest : Result} (radius x y : Double)
      → program_loop s.processor radius x y
        ≡ ok (record s.processor { latest_result = latest }, true)
      → Step pb s (with_latest s latest)

pub data Reach (pb : Protobuf) : System → System → Type 0 where
  there : {s : System} → Reach pb s s
  then : {s t u : System} → Step pb s t → Reach pb t u → Reach pb s u

module _ (pb : Protobuf) where
  receive_move-Step :
      (t : Option Transport) (i : RxInput) (s s' : System)
      → s.processor.transport ≡ t
      → receive_move pb t i s ≡ ok s'
      → Step pb s s'
  unfolding receive_move
  receive_move-Step none i s s' q e = subst (Step pb s) (ok_injective e) waits
  receive_move-Step (some t) i s s' q e =
      let (r, found, f) = >>=_through _ (update_rx t i) e in
      let made : with_round pb s r ≡ s' =
        cc (recv_all_lem pb s.pending (record s.processor { transport = some r.transport })) in
      subst (Step pb s) made (receives i q found)

  push_move-Step :
      (msgs : List (ℕ × Bytes)) (s s' : System)
      → s.pending ≡ msgs
      → push_move pb msgs s ≡ ok s'
      → Step pb s s'
  unfolding push_move recv_cb_routine
  push_move-Step [] s s' q e = subst (Step pb s) (ok_injective e) waits
  push_move-Step ((n, text) ∷ msgs) s s' q e = subst (Step pb s) (ok_injective e) (pushes q)

  take_move-Step :
      (running : Bool) (cmds : List Command) (s s' : System)
      → s.phase ≡ idle
      → s.processor.running ≡ running
      → s.processor.cmd_fifo ≡ cmds
      → take_move running cmds s ≡ ok s'
      → Step pb s s'
  unfolding take_move
  take_move-Step false cmds s s' ph run q e = subst (Step pb s) (ok_injective e) waits
  take_move-Step true [] s s' ph run q e = cc
  take_move-Step true (cmd ∷ cmds) s s' ph run q e =
      subst (Step pb s) (ok_injective e) (takes ph run q)

  answer_move-Step :
      (cmd : Command) (s s' : System)
      → s.phase ≡ taken cmd
      → answer_move pb cmd s ≡ ok s'
      → Step pb s s'
  unfolding answer_move
  answer_move-Step cmd s s' ph e =
      let (r, found, f) =
        >>=_through _
          (answer cmd s.processor.latest_result (first_response pb cmd s.processor.response)) e in
      subst (Step pb s) (ok_injective f) (answers ph found)

  send_move-Step :
      (cmd : Command) (sends : Bool) (s s' : System)
      → s.phase ≡ replying cmd
      → send_move pb sends s ≡ ok s'
      → Step pb s s'
  unfolding send_move
  send_move-Step cmd sends s s' ph e = go (socket_of s.processor) refl e
    where
      go :
          (o : Option LinuxSocket)
          → socket_of s.processor ≡ o
          → (send_to o (pb.serialize s.processor.response) sends >>= λ out. ok (with_reply s out))
            ≡ ok s'
          → Step pb s s'
      go none q f = cc
      go (some sock) q f = subst (Step pb s) (ok_injective f) (replies sends ph q)

  work_move-Step :
      (radius x y : Double) (s s' : System) → work_move radius x y s ≡ ok s' → Step pb s s'
  unfolding work_move program_loop
  work_move-Step radius x y s s' e =
      let p = s.processor in
      let (r, found, f) = >>=_through _ (program_loop p radius x y) e in
      let (a, e0, f0) = >>=_through _ (set_center_point 0 x p.latest_result.center_point) found in
      let (b, e1, f1) = >>=_through _ (set_center_point 1 y a) f0 in
      let latest = record p.latest_result { contact_radius = some radius; center_point = b } in
      let made : with_latest s latest ≡ s' = cc in
      subst (Step pb s) made (stores radius x y (found ∙ sym f1))

  pub move_in-Step :
      (phase : Phase) (m : Move) (s s' : System)
      → s.phase ≡ phase
      → move_in pb phase m s ≡ ok s'
      → Step pb s s'
  unfolding move_in
  move_in-Step phase (receive i) s s' ph e = receive_move-Step s.processor.transport i s s' refl e
  move_in-Step phase push s s' ph e = push_move-Step s.pending s s' refl e
  move_in-Step phase (work radius x y) s s' ph e = work_move-Step radius x y s s' e
  move_in-Step idle take s s' ph e =
      take_move-Step s.processor.running s.processor.cmd_fifo s s' ph refl refl e
  move_in-Step (taken cmd) answer_it s s' ph e = answer_move-Step cmd s s' ph e
  move_in-Step (replying cmd) (send_it sends) s s' ph e = send_move-Step cmd sends s s' ph e
  move_in-Step _ _ s s' ph e = subst (Step pb s) (ok_injective e) waits

  pub run_moves-Reach :
      (moves : List Move) (s s' : System) → run_moves pb moves s ≡ ok s' → Reach pb s s'
  unfolding run_moves
  run_moves-Reach [] s s' e = subst (Reach pb s) (ok_injective e) there
  run_moves-Reach (m ∷ moves) s s' e =
      let (next, found, f) = >>=_through _ (move_in pb s.phase m s) e in
      then (move_in-Step s.phase m s next refl found) (run_moves-Reach moves next s' f)

  along :
      (P : System → Type 0)
      → ((s s' : System) → Step pb s s' → P s → P s')
      → (s s' : System) → Reach pb s s'
      → P s
      → P s'
  along P k s _ there h = h
  along P k s u (then {t} step rest) h = along P k t u rest (k s t step h)

  -- What each step keeps is kept by every schedule.
  pub run_moves-keeps :
      (P : System → Type 0)
      → ((s s' : System) → Step pb s s' → P s → P s')
      → (moves : List Move) (s s' : System) → run_moves pb moves s ≡ ok s'
      → P s
      → P s'
  run_moves-keeps P k moves s s' e h = along P k s s' (run_moves-Reach moves s s' e) h

  -- A move out of its turn.
  idle_move : (phase : Phase) (s : System) → (m : Move) × (move_in pb phase m s ≡ ok s)
  unfolding move_in
  idle_move idle s = (answer_it, refl)
  idle_move (taken cmd) s = (take, refl)
  idle_move (replying cmd) s = (take, refl)

  Step-move_in : (s s' : System) → Step pb s s' → (m : Move) × (move_in pb s.phase m s ≡ ok s')
  unfolding move_in receive_move push_move take_move answer_move send_move work_move recv_cb_routine
  Step-move_in s _ waits = idle_move s.phase s
  Step-move_in s _ (receives {t} {r} i q found) = (
    receive i,
    ap (λ o. receive_move pb o i s) q
        ∙ ap
            (λ m. m >>= λ (r : Round). ok (record s {
              processor =
                  recv_all pb (record s.processor { transport = some r.transport }) s.pending;
              pending = r.delivered;
              received = s.received ++ map (λ m. pb.parse m.1) s.pending;
            }))
            found
        ∙ ap
            (λ p. ok (record s {
              processor = p;
              pending = r.delivered;
              received = s.received ++ map (λ m. pb.parse m.1) s.pending;
            }))
            (recv_all_lem pb s.pending (record s.processor { transport = some r.transport })),
  )
  Step-move_in s _ (pushes {m} {msgs} q) = (push, ap (λ l. push_move pb l s) q)
  Step-move_in s _ (takes {cmd} {cmds} ph run q) = (
    take,
    ap (λ phase. move_in pb phase take s) ph
        ∙ ap (λ b. take_move b s.processor.cmd_fifo s) run
        ∙ ap (λ l. take_move true l s) q,
  )
  Step-move_in s _ (answers {cmd} ph found) = (
    answer_it,
    ap (λ phase. move_in pb phase answer_it s) ph
        ∙ ap (λ m. m >>= λ r. ok (with_answer s cmd r)) found,
  )
  Step-move_in s _ (replies {cmd} sends ph q) = (
    send_it sends,
    ap (λ phase. move_in pb phase (send_it sends) s) ph
        ∙ ap
            (λ o.
              send_to o (pb.serialize s.processor.response) sends >>= λ out. ok (with_reply s out))
            q,
  )
  Step-move_in s _ (stores radius x y found) = (
    work radius x y,
    ap (λ m. m >>= λ (r : Processor × Bool). ok (record s { processor = r.0 })) found,
  )

  Reach-run_moves :
      (s s' : System) → Reach pb s s' → (moves : List Move) × (run_moves pb moves s ≡ ok s')
  unfolding run_moves
  Reach-run_moves s _ there = ([], refl)
  Reach-run_moves s u (then {t} step rest) =
      let (m, e) = Step-move_in s t step in
      let (moves, f) = Reach-run_moves t u rest in (m ∷ moves, rw e f)

  -- The states in which schedules end without undefined behaviour are exactly those that the steps of
  -- the threads reach: a round of the transport's thread that returns, a push of one of its messages, a
  -- command taken from a queue that is not empty while the processor runs, an answer, a reply over a socket, and a store of the worker.
  pub run_moves_iff :
      (s s' : System) → ((moves : List Move) × (run_moves pb moves s ≡ ok s')) ↔ Reach pb s s'
  run_moves_iff s s' = (λ (moves, e). run_moves-Reach moves s s' e, λ r. Reach-run_moves s s' r)
