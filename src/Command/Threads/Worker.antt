-- ===== src/Command/Threads/Worker.antt =====
-- The worker's `programLoop` in a schedule, from the processor that `main` configures.
