-- ===== src/Server/Rounds.antt =====
-- The main loop of the server program beside the one that works off a queue (src/server.cpp).

use protobuf_sandbox.Prelude.{
  Bytes, list_laws, ℕ, zero, suc, ◌≡◌, refl, ap, ◌∙◌, Bool, true, false, Option, List, [], ◌∷◌, Run,
  ok, fault, ◌>>=◌,
}
use protobuf_sandbox.Command.Messages.{Protobuf}
use protobuf_sandbox.Command.{Processor, Processed, do_work}
use protobuf_sandbox.Command.Serve.{main_loop}
use protobuf_sandbox.Server.{Round, serve}

-- Rounds in which no command arrives.
abbrev pub quiet_rounds : Bool → ℕ → List Round
quiet_rounds sends zero = []
quiet_rounds sends (suc n) = record { queued = []; sends = sends } ∷ quiet_rounds sends n

abbrev pub processor_of : Run (Processor × List (Option (ℕ × Bytes))) → Run Processor
processor_of m = m >>= λ r. ok r.0

processor_of-answers :
    (x : Option (ℕ × Bytes)) (m : Run (Processor × List (Option (ℕ × Bytes))))
    → processor_of m ≡ processor_of (m >>= λ rest. ok (rest.0, x ∷ rest.1))
processor_of-answers x fault = refl
processor_of-answers x (ok r) = refl

-- Without arrivals the loop is the one that works off the queue.
pub serve-main_loop :
    (pb : Protobuf) (sends : Bool) (n : ℕ) (p : Processor)
    → serve pb (quiet_rounds sends n) p ≡ processor_of (main_loop pb sends n p)
unfolding serve main_loop
serve-main_loop pb sends zero p = refl
serve-main_loop pb sends (suc n) p =
    ap
      (λ q. elim p.running [
        | false ↦ ok p
        | true ↦ (do_work pb q sends >>= λ r. serve pb (quiet_rounds sends n) r.processor)
      ])
      (simp list_laws)
    ∙ go p.running (do_work pb p sends) (serve-main_loop pb sends n)
  where
    go :
        (b : Bool) (m : Run Processed)
        → ((q : Processor)
            → serve pb (quiet_rounds sends n) q ≡ processor_of (main_loop pb sends n q))
        → elim b [ false ↦ ok p | true ↦ (m >>= λ r. serve pb (quiet_rounds sends n) r.processor) ]
          ≡ processor_of (elim b [
            | false ↦ ok (p, [])
            | true ↦
                (m >>= λ r.
                main_loop pb sends n r.processor >>= λ rest. ok (rest.0, r.sent ∷ rest.1))
          ])
    go false m ih = refl
    go true fault ih = refl
    go true (ok r) ih =
        ih r.processor ∙ processor_of-answers r.sent (main_loop pb sends n r.processor)
