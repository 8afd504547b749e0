-- ===== src/Command/Threads/Whole.antt =====
-- `processCommands` as a whole beside its parts.
use protobuf_sandbox.Prelude.{
  ℕ, ◌≡◌, refl, ap, ◌∙◌, Bool, true, false, not, ◌&&◌, Option, none, List, [], ◌∷◌, ◌++◌,
  if◌then◌else◌, Bytes, codes, contains, Run, ok, fault, ◌>>=◌,
}
use protobuf_sandbox.Command.Messages.{Command, Protobuf, Response}
use protobuf_sandbox.Command.{
  Processor, Processed, answer, socket_of, send_to, process_commands, process_queue, handle,
}
use protobuf_sandbox.Command.Threads.{
  idle, taken, replying, System, Move, take, answer_it, send_it, first_response, take_move,
  answer_move, send_move, move_in, run_moves,
}

module _ (pb : Protobuf) (sends : Bool) where
  -- The parts of one call, in their order.
  abbrev pub parts : List Move
  parts = take ∷ answer_it ∷ send_it sends ∷ []

  abbrev pub processor_of : Run System → Run Processor
  processor_of m = m >>= λ t. ok t.processor

  answer_parts :
      (cmd : Command) (s : System)
      → s.phase ≡ taken cmd
      → processor_of (run_moves pb (answer_it ∷ send_it sends ∷ []) s)
        ≡ (handle pb s.processor cmd sends >>= λ r. ok r.processor)
  unfolding answer_move run_moves move_in send_move handle
  answer_parts cmd s ph =
      ap (λ f. processor_of (move_in pb f answer_it s >>= run_moves pb (send_it sends ∷ []))) ph
      ∙ go (answer cmd s.processor.latest_result (first_response pb cmd s.processor.response))
    where
      still : Bool
      still =
          s.processor.running
          && not (contains cmd.method (codes "quit") && s.processor.exit_on_quit)

      answered : Response → System
      answered r = record s {
        processor = record s.processor { response = r; running = still };
        phase = replying cmd;
      }

      whole : Response → Option (ℕ × Bytes) × Bool → Processed
      whole r out = record {
        processor = record s.processor { response = r; running = still };
        sent = out.0;
        ret = true;
      }

      sent :
          (r : Response) (w : Run (Option (ℕ × Bytes) × Bool))
          → processor_of (
              (w >>= λ out.
              ok (record (answered r) { phase = idle; replies = s.replies ++ out ∷ [] }))
              >>= λ next. ok next)
            ≡ ((w >>= λ out. ok (whole r out)) >>= λ q. ok q.processor)
      sent r fault = refl
      sent r (ok out) = refl

      go :
          (m : Run Response)
          → processor_of ((m >>= λ r. ok (answered r)) >>= run_moves pb (send_it sends ∷ [])) ≡ (
              (m >>= λ r.
              send_to (socket_of s.processor) (pb.serialize r) sends >>= λ out. ok (whole r out))
              >>= λ q. ok q.processor)
      go fault = refl
      go (ok r) = sent r (send_to (socket_of s.processor) (pb.serialize r) sends)

  skipped :
      (s : System)
      → s.phase ≡ idle
      → processor_of (run_moves pb (answer_it ∷ send_it sends ∷ []) s) ≡ ok s.processor
  unfolding run_moves move_in
  skipped s ph =
      ap (λ f. processor_of (move_in pb f answer_it s >>= run_moves pb (send_it sends ∷ []))) ph
      ∙ ap (λ f. processor_of (move_in pb f (send_it sends) s >>= run_moves pb [])) ph

  take_parts :
      (running : Bool) (cmds : List Command) (s : System)
      → s.phase ≡ idle
      → s.processor.running ≡ running
      → s.processor.cmd_fifo ≡ cmds
      → processor_of (take_move running cmds s >>= run_moves pb (answer_it ∷ send_it sends ∷ []))
        ≡ ((if running
              then process_queue pb s.processor cmds sends
              else ok (record { processor = s.processor; sent = none; ret = false }))
            >>= λ q. ok q.processor)
  unfolding take_move process_queue
  take_parts false cmds s ph run fifo = skipped s ph
  take_parts true [] s ph run fifo = refl
  take_parts true (cmd ∷ cmds) s ph run fifo =
      answer_parts cmd
        (record s { processor = record s.processor { cmd_fifo = cmds }; phase = taken cmd }) refl

  -- The three parts of the main thread's call, with no other thread in between, are
  -- `processCommands`: they leave the same processor, and fault where it faults.
  pub parts-process_commands :
      (s : System)
      → s.phase ≡ idle
      → processor_of (run_moves pb parts s)
        ≡ (process_commands pb s.processor sends >>= λ q. ok q.processor)
  unfolding process_commands run_moves move_in
  parts-process_commands s ph =
      ap (λ f. processor_of (move_in pb f take s >>= run_moves pb (answer_it ∷ send_it sends ∷ [])))
        ph
      ∙ take_parts s.processor.running s.processor.cmd_fifo s ph refl refl
