-- ===== src/Command/Threads/Order.antt =====
-- What every schedule of the threads keeps: the order of the commands and of the replies.

use protobuf_sandbox.Prelude.{
  subst, list_laws, ◌≡◌, refl, sym, ap, ◌∙◌, Option, List, [], ◌∷◌, ◌++◌, map, ok,
}
use protobuf_sandbox.Prelude.Int.{ℤ}
use protobuf_sandbox.Command.Messages.{Command, Protobuf}
use protobuf_sandbox.Command.Says.{answer-Says}
use protobuf_sandbox.Command.{Processor}
use protobuf_sandbox.Command.Threads.{first_response, System, Move, run_moves, start_system}
use protobuf_sandbox.Command.Threads.Steps.{
  Step, waits, receives, pushes, takes, answers, replies, stores, run_moves-keeps,
}
use protobuf_sandbox.Command.Threads.Replies.{
  reply_id, Replied, Told, Replied-append, send_data-Carries, last_id-append, in_flight, due,
  IsOrdered, answer-reply_id,
}

module _ (pb : Protobuf) (first : Option ℤ) where
  Step-IsOrdered : (s s' : System) → Step pb s s' → IsOrdered pb first s → IsOrdered pb first s'
  Step-IsOrdered s _ waits o = o
  Step-IsOrdered s _ (receives {t} {r} i uses round) o =
      let new = map (λ m. pb.parse m.1) s.pending in
      record {
        done = o.done;
        kept = ap (λ l. l ++ new) o.kept ∙ simp list_laws;
        replied = o.replied;
        current = o.current;
        told = o.told;
      }
  Step-IsOrdered s _ (pushes {m} q) o = record {
    done = o.done;
    kept = ap (λ l. l ++ pb.parse m.1 ∷ []) o.kept ∙ simp list_laws;
    replied = o.replied;
    current = o.current;
    told = o.told;
  }
  Step-IsOrdered s _ (takes ph run q) o = record {
    done = o.done;
    kept = o.kept ∙ ap (λ l. o.done ++ l) (ap (λ f. in_flight f ++ s.processor.cmd_fifo) ph ∙ q);
    replied = o.replied;
    current = o.current ∙ ap (due pb first o.done) ph;
    told = tt;
  }
  Step-IsOrdered s _ (answers {cmd} {r} ph found) o = record {
    done = o.done;
    kept = o.kept ∙ ap (λ f. o.done ++ (in_flight f ++ s.processor.cmd_fifo)) ph;
    replied = o.replied;
    current =
        answer-reply_id pb cmd s.processor.latest_result s.processor.response r found
        ∙ ap (λ id. reply_id pb id cmd) (o.current ∙ ap (due pb first o.done) ph);
    told =
        answer-Says cmd s.processor.latest_result (first_response pb cmd s.processor.response) r
          found;
  }
  Step-IsOrdered s _ (replies {cmd} {sock} sends ph uses) o =
      let id = o.current ∙ ap (due pb first o.done) ph in
      record {
        done = o.done ++ cmd ∷ [];
        kept =
            o.kept ∙ ap (λ f. o.done ++ (in_flight f ++ s.processor.cmd_fifo)) ph ∙ simp list_laws;
        replied = Replied-append pb first o.done s.replies cmd _ o.replied (
          s.processor.response,
          id,
          subst (λ f. Told f s.processor.response) ph o.told,
          send_data-Carries sock (pb.serialize s.processor.response) sends,
        );
        current = id ∙ sym (last_id-append pb first o.done cmd);
        told = tt;
      }
  Step-IsOrdered s _ (stores radius x y ran) o = record {
    done = o.done;
    kept = o.kept;
    replied = o.replied;
    current = o.current;
    told = o.told;
  }

-- Whatever the schedule of the three threads, as far as it runs into no undefined behaviour: of the
-- commands that waited or were received, each is done, in work or in the queue, in the order of their
-- arrival, none is lost or taken twice. `sendData` was called once for each that is done, in this order,
-- with the serialized form of a response, which was handed to `send` whole unless there was no client or
-- it is empty; the response has the command's identifier, or for a `quit` that of the one before it. It
-- says OK to a `status`, success to a `start` or `stop`, a radius to a `query`, and failure to the rest.
pub schedule_order :
    (pb : Protobuf) (p : Processor) (moves : List Move) (s : System)
    → run_moves pb moves (start_system p) ≡ ok s
    → (done : List Command) × (s.received ≡ done ++ (in_flight s.phase ++ s.processor.cmd_fifo))
      × Replied pb p.response.id done s.replies
unfolding start_system
schedule_order pb p moves s e =
    let o =
      run_moves-keeps pb (IsOrdered pb p.response.id) (Step-IsOrdered pb p.response.id) moves
        (start_system p) s e
        (record { done = []; kept = refl; replied = tt; current = refl; told = tt }) in
    (o.done, o.kept, o.replied)
