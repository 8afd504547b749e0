-- ===== src/Command/Threads/Breaks.antt =====
-- Every move of the threads that is undefined behaviour by itself. Races for memory are left out.
use protobuf_sandbox.Prelude.{
  ℕ, Bytes, ◌≡◌, ◌≢◌, ltb_iff, Run-cases, ok_injective, bind_ok_fault_iff, ◌↔◌, refl, sym, ap, ◌∙◌,
  Bool, true, false, ◌&&◌, ◌==◌, none, some, List, [], ◌∷◌, ◌++◌, arith, length, inl, inr,
  Option-cases, if◌then◌else◌, ok, fault, ◌>>=◌, >>=_through, Post-of_ok, Post, subst,
}
use protobuf_sandbox.Json.Node.{Double}
use protobuf_sandbox.Transport.{Transport, ReadMode, RxInput, Round}
use protobuf_sandbox.Transport.Reconnect.{has_sound_socket, update_rx_sound}
use protobuf_sandbox.Transport.Thread.{update_rx-HasSettingsOf}
use protobuf_sandbox.Command.Messages.{Command, Protobuf, Success}
use protobuf_sandbox.Command.{answer, with_success, program_loop}
use protobuf_sandbox.Command.Process.{program_loop_fault_iff}
use protobuf_sandbox.Command.Points.{lacks_point, lacks_answer, answer_fault_iff}
use protobuf_sandbox.Command.Threads.{
  Phase, idle, taken, replying, System, Move, receive, push, push_move, take, answer_it, send_it,
  work, first_response, receive_move, take_move, answer_move, send_move, work_move, move_in,
  run_moves,
}
use protobuf_sandbox.Command.Threads.Steps.{
  Step, waits, receives, pushes, takes, answers, replies, stores, move_in-Step, run_moves-keeps,
}

-- The three places: a queue that is empty, coordinates that the worker does not find, and coordinates
-- that the answer to a `query` does not find.
abbrev pub breaks : Phase → Move → System → Bool
breaks phase (work radius x y) s = lacks_point s.processor.latest_result
breaks idle take s = s.processor.running && length s.processor.cmd_fifo == 0
breaks (taken cmd) answer_it s = lacks_answer cmd s.processor.latest_result s.processor.response
breaks _ _ s = false

-- The transport reads blocks, and its socket's state fits its members.
pub record IsSteady (s : System) : Type 0 where
  pub transport : Transport
  pub uses : s.processor.transport ≡ some transport
  pub blocks : transport.receive_mode ≡ ReadMode.block
  pub sound : has_sound_socket transport ≡ true

-- The transport is the same one.
kept-IsSteady :
    (s : System) {s' : System}
    → IsSteady s
    → s'.processor.transport ≡ s.processor.transport
    → IsSteady s'
kept-IsSteady s h e = record {
  transport = h.transport;
  uses = e ∙ h.uses;
  blocks = h.blocks;
  sound = h.sound;
}

-- A move of the schedule that breaks, with the moves in front of it and what they leave.
pub record BreaksAt (pb : Protobuf) (moves : List Move) (s : System) : Type 0 where
  pub front : List Move
  pub move : Move
  pub back : List Move
  pub state : System
  pub at : moves ≡ front ++ move ∷ back
  pub reached : run_moves pb front s ≡ ok state
  pub broken : breaks state.phase move state ≡ true

first_response-lacks_answer :
    (pb : Protobuf) (cmd : Command) (s : System)
    → lacks_answer cmd s.processor.latest_result (first_response pb cmd s.processor.response)
      ≡ lacks_answer cmd s.processor.latest_result s.processor.response
first_response-lacks_answer pb cmd s = go (pb.byte_size cmd == 0)
  where
    go :
        (b : Bool)
        → lacks_answer cmd s.processor.latest_result (
            if b
            then with_success cmd Success.is_false s.processor.response
            else s.processor.response)
          ≡ lacks_answer cmd s.processor.latest_result s.processor.response
    go true = refl
    go false = refl

module _ (pb : Protobuf) where
  take_move_fault_iff :
      (running : Bool) (cmds : List Command) (s : System)
      → (take_move running cmds s ≡ fault) ↔ ((running && length cmds == 0) ≡ true)
  unfolding take_move
  take_move_fault_iff false cmds s = ground arith
  take_move_fault_iff true [] s = ground arith
  take_move_fault_iff true (cmd ∷ cmds) s = ground arith

  answer_move_fault_iff :
      (cmd : Command) (s : System)
      → (answer_move pb cmd s ≡ fault)
        ↔ (lacks_answer cmd s.processor.latest_result s.processor.response ≡ true)
  unfolding answer_move
  answer_move_fault_iff cmd s =
      let p = s.processor in
      let first = first_response pb cmd p.response in
      let (f, g) = bind_ok_fault_iff (answer cmd p.latest_result first) _ in
      let (h, k) = answer_fault_iff cmd p.latest_result first in
      let same = first_response-lacks_answer pb cmd s in
      (λ e. sym same ∙ h (f e), λ e. g (k (same ∙ e)))

  pub work_move_fault_iff :
      (radius x y : Double) (s : System)
      → (work_move radius x y s ≡ fault) ↔ (lacks_point s.processor.latest_result ≡ true)
  unfolding work_move
  work_move_fault_iff radius x y s =
      let (f, g) = bind_ok_fault_iff (program_loop s.processor radius x y) _ in
      let (h, k) = program_loop_fault_iff s.processor radius x y in
      let (to, from) = ltb_iff (length s.processor.latest_result.center_point) 2 in
      (λ e. from (h (f e)), λ e. g (k (to e)))

  send_move_works : (sends : Bool) (s : System) → IsSteady s → send_move pb sends s ≢ fault
  unfolding send_move
  send_move_works sends s h e = elim (Option-cases h.transport.socket) [
    | inl z ↦ cc (rw z at h.sound)
    | inr (sock, z) ↦
        cc (ap (λ o. elim o [ none ↦ s.processor.socket | some t ↦ t.socket ]) h.uses ∙ z)
  ]

  push_move_works : (msgs : List (ℕ × Bytes)) (s : System) → push_move pb msgs s ≢ fault
  unfolding push_move
  push_move_works [] s e = cc
  push_move_works (m ∷ msgs) s e = cc

  receive_move_works :
      (i : RxInput) (s : System) → IsSteady s → receive_move pb s.processor.transport i s ≢ fault
  unfolding receive_move
  receive_move_works i s h e =
      let (r, round, sound) = update_rx_sound h.transport i h.sound h.blocks in
      cc (ap (λ o. receive_move pb o i s) h.uses)

  Step-IsSteady : (s s' : System) → Step pb s s' → IsSteady s → IsSteady s'
  Step-IsSteady s _ waits h = h
  Step-IsSteady s _ (receives {t} {r} i uses round) h =
      let same : h.transport ≡ t = cc (uses, h.uses) in
      let blocks = ap (λ (t : Transport). t.receive_mode) (sym same) ∙ h.blocks in
      let (r2, known, sound) =
        update_rx_sound t i (subst (λ u. has_sound_socket u ≡ true) same h.sound) blocks in
      let (ends, mode) = Post-of_ok (subst (Post _ Unit) round (update_rx-HasSettingsOf t i)) in
      record {
        transport = r.transport;
        uses = refl;
        blocks = mode ∙ blocks;
        sound =
            ap (λ (q : Round). has_sound_socket q.transport) (ok_injective (sym round ∙ known))
            ∙ sound;
      }
  Step-IsSteady s _ (pushes q) h = kept-IsSteady s h refl
  Step-IsSteady s _ (takes ph run q) h = kept-IsSteady s h refl
  Step-IsSteady s _ (answers ph found) h = kept-IsSteady s h refl
  Step-IsSteady s _ (replies sends ph sock) h = kept-IsSteady s h refl
  Step-IsSteady s _ (stores radius x y ran) h = kept-IsSteady s h refl

  move_in_fault_iff :
      (phase : Phase) (m : Move) (s : System)
      → IsSteady s
      → (move_in pb phase m s ≡ fault) ↔ (breaks phase m s ≡ true)
  unfolding move_in
  move_in_fault_iff phase (receive i) s h = (λ f. absurd (receive_move_works i s h f), λ f. cc)
  move_in_fault_iff phase push s h = (λ f. absurd (push_move_works s.pending s f), λ f. cc)
  move_in_fault_iff phase (work radius x y) s h = work_move_fault_iff radius x y s
  move_in_fault_iff idle take s h = take_move_fault_iff s.processor.running s.processor.cmd_fifo s
  move_in_fault_iff (taken cmd) answer_it s h = answer_move_fault_iff cmd s
  move_in_fault_iff (replying cmd) (send_it sends) s h =
      (λ f. absurd (send_move_works sends s h f), λ f. cc)
  move_in_fault_iff _ _ s h = (λ f. cc, λ f. cc)

  run_moves_breaks :
      (moves : List Move) (s : System)
      → IsSteady s
      → run_moves pb moves s ≡ fault
      → BreaksAt pb moves s
  unfolding run_moves
  run_moves_breaks [] s h e = cc
  run_moves_breaks (m ∷ moves) s h e = elim (Run-cases (move_in pb s.phase m s)) [
    | inl z ↦ record {
      front = [];
      move = m;
      back = moves;
      state = s;
      at = refl;
      reached = refl;
      broken = (move_in_fault_iff s.phase m s h).0 z;
    }
    | inr (next, z) ↦
        let later =
          run_moves_breaks moves next
            (Step-IsSteady s next (move_in-Step pb s.phase m s next refl z) h) (rw z at e) in
        record {
          front = m ∷ later.front;
          move = later.move;
          back = later.back;
          state = later.state;
          at = ap (λ l. m ∷ l) later.at;
          reached = rw z later.reached;
          broken = later.broken;
        }
  ]

  run_moves_from :
      (front back : List Move) (s s' : System)
      → run_moves pb front s ≡ ok s'
      → run_moves pb (front ++ back) s ≡ run_moves pb back s'
  unfolding run_moves
  run_moves_from [] back s s' e = ap (λ u. run_moves pb back u) (cc)
  run_moves_from (m ∷ front) back s s' e =
      let (next, found, f) = >>=_through _ (move_in pb s.phase m s) e in
      rw found (run_moves_from front back next s' f)

  -- Over a transport that reads blocks from a sound socket, and with the moves one after the other, a
  -- schedule of the three threads comes to undefined behaviour exactly if one of its moves is made in a state in which it breaks: the main
  -- thread takes from an empty queue, or the worker stores, or the main thread answers a `query`, where
  -- a list of coordinates has less than two. Reads, sends and every other move never fault.
  pub run_moves_fault_iff :
      (moves : List Move) (s : System)
      → IsSteady s
      → (run_moves pb moves s ≡ fault) ↔ BreaksAt pb moves s
  unfolding run_moves
  run_moves_fault_iff moves s h = (run_moves_breaks moves s h, fails)
    where
      fails : BreaksAt pb moves s → run_moves pb moves s ≡ fault
      fails b =
          let steady = run_moves-keeps pb IsSteady Step-IsSteady b.front s b.state b.reached h in
          ap (λ l. run_moves pb l s) b.at
          ∙ run_moves_from b.front (b.move ∷ b.back) s b.state b.reached
          ∙ ap (λ m. m >>= λ next. run_moves pb b.back next)
              ((move_in_fault_iff b.state.phase b.move b.state steady).1 b.broken)
