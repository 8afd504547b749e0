-- ===== src/Command/Threads/Stopped.antt =====
-- A processor that has stopped, under every schedule of the threads.
use protobuf_sandbox.Prelude.{ℕ, Bool, Bytes, ◌≡◌, refl, false, Option, List, ok}
use protobuf_sandbox.Command.Messages.{Protobuf}
use protobuf_sandbox.Command.Threads.{idle, System, Move, run_moves}
use protobuf_sandbox.Command.Threads.Steps.{
  Step, waits, receives, pushes, takes, answers, replies, stores, run_moves-keeps,
}

-- The main thread is outside of `processCommands`, and will take no command any more.
pub record IsStopped (s : System) : Type 0 where
  pub phase : s.phase ≡ idle
  pub running : s.processor.running ≡ false

module _ (pb : Protobuf) where
  -- What is left as it is, counted from the replies at the beginning.
  abbrev Quiet : List (Option (ℕ × Bytes) × Bool) → System → Type 0
  Quiet sent s = IsStopped s × (s.replies ≡ sent)

  Step-Quiet :
      (sent : List (Option (ℕ × Bytes) × Bool)) (s s' : System)
      → Step pb s s'
      → Quiet sent s
      → Quiet sent s'
  Step-Quiet sent s _ waits q = q
  Step-Quiet sent s _ (receives i uses round) (h, q) =
      (record { phase = h.phase; running = h.running }, q)
  Step-Quiet sent s _ (pushes first) (h, q) = (record { phase = h.phase; running = h.running }, q)
  Step-Quiet sent s _ (takes ph run first) (h, q) = cc (run, h.running)
  Step-Quiet sent s _ (answers ph found) (h, q) = cc (ph, h.phase)
  Step-Quiet sent s _ (replies sends ph sock) (h, q) = cc (ph, h.phase)
  Step-Quiet sent s _ (stores radius x y ran) (h, q) =
      (record { phase = h.phase; running = h.running }, q)

  -- Once the processor does not run any more and the main thread is outside of `processCommands`, no
  -- schedule sends a reply, nor does it start the processor again.
  pub run_moves-IsStopped :
      (moves : List Move) (s s' : System)
      → run_moves pb moves s ≡ ok s'
      → IsStopped s
      → IsStopped s' × (s'.replies ≡ s.replies)
  run_moves-IsStopped moves s s' e h =
      run_moves-keeps pb (Quiet s.replies) (Step-Quiet s.replies) moves s s' e (h, refl)
