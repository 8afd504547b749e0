-- ===== src/Server/Ending.antt =====
-- How the server program ends (src/server.cpp).

use protobuf_sandbox.Prelude.{
  none, ◌==◌, Run, sym, if◌then◌else◌, ◌≡◌, refl, ap, ◌∙◌, Bool, true, false, Option, some, List,
  [], ◌∷◌, Bool-cases, Option-cases, inl, inr, subst, ◌++◌, arith, Bytes, codes, ok, fault,
  >>=_through,
}
use protobuf_sandbox.Json.Node.{CJson}
use protobuf_sandbox.Json.Library.{CJsonLib}
use protobuf_sandbox.Json.Getters.{get_attribute_value_bool}
use protobuf_sandbox.Json.Files.{File, FileRead, refused, threw, parsed, read_json_from_file}
use protobuf_sandbox.Transport.{Transport, StopStep, start_comm, stop_comm}
use protobuf_sandbox.Command.Messages.{Command, Success, Protobuf}
use protobuf_sandbox.Command.{
  Processor, new_processor, init, start, do_work, process_commands, process_queue, shutdown,
  join_worker, Processed, handle, answer, socket_of, send_to, with_success,
}
use protobuf_sandbox.Command.Init.{IsReady, init-IsReady, init-IsUntouched}
use protobuf_sandbox.Server.{
  Round, serve, status_zero, World, run_processor, run_config, server_main,
}

-- The transport's thread is stopped, and so are the main loop and the worker.
pub record IsDown (q : Processor) : Type 0 where
  pub not_running : q.running ≡ false
  pub worker_done : q.done ≡ true
  pub joined : q.has_thread ≡ false
  pub transport : Transport
  pub has_transport : q.transport ≡ some transport
  pub stopped : transport.comm_started ≡ false

stop_comm-stopped :
    (t t' : Transport) (steps : List StopStep) (b : Bool)
    → stop_comm t ≡ ok (t', steps, b)
    → t'.comm_started ≡ false
unfolding stop_comm
stop_comm-stopped t t' steps b e = elim (Bool-cases t.comm_started) [
  | inl h ↦ elim (Option-cases t.socket) [
    | inl z ↦ cc (rw (h, z) at e)
    | inr (s, z) ↦ ground (arith, rw (h, z) at e)
  ]
  | inr h ↦ ground (arith, h, rw h at e)
]

-- `Shutdown` comes to its end only with a worker to join, and then has joined it.
shutdown-IsDown :
    (p q : Processor) (b : Bool) → shutdown p ≡ ok (q, b) → (p.has_thread ≡ true) × IsDown q
unfolding shutdown join_worker
shutdown-IsDown p q b e = elim (Option-cases p.transport) [
  | inl z ↦ cc (rw z at e)
  | inr (t, z) ↦
      let (r, found, f) = >>=_through _ (stop_comm t) (rw z at e) in
      elim (Bool-cases p.has_thread) [
        | inl h ↦
            let made : record p {
              running = false;
              done = true;
              transport = some r.0;
              has_thread = false;
            }
                ≡ q =
              cc (rw h at f) in
            (
              h,
              subst IsDown made (record {
                not_running = refl;
                worker_done = refl;
                joined = refl;
                transport = r.0;
                has_transport = refl;
                stopped = stop_comm-stopped t r.0 r.1 r.2 found;
              }),
            )
        | inr h ↦ cc (rw h at f)
      ]
]

-- A processor that is ready starts, where both threads are created.
start-IsReady :
    (p : Processor)
    → IsReady p
    → (q : Processor) × (start p true true ≡ ok (q, true))
      × (q.running ≡ true)
      × (q.cmd_fifo ≡ p.cmd_fifo)
unfolding start start_comm
start-IsReady p r = (
  record p {
    transport = some (record r.transport { rx_done = false; comm_started = true });
    done = false;
    has_thread = true;
    running = true;
  },
  rw (r.has_transport) (rw (r.has_socket) (rw (r.not_started) refl)),
  refl,
  refl,
)

-- A round that finds no command faults.
serve-idle :
    (pb : Protobuf) (i : Round) (later : List Round) (p : Processor)
    → p.running ≡ true
    → p.cmd_fifo ++ i.queued ≡ []
    → serve pb (i ∷ later) p ≡ fault
unfolding serve do_work process_commands process_queue
serve-idle pb i later p r q = rw (r, q) refl

-- Only `Start` creates the worker's thread, and it returns true where it has.
start-thread :
    (p q : Processor) (comm spawns b : Bool)
    → start p comm spawns ≡ ok (q, b)
    → p.has_thread ≡ false
    → q.has_thread ≡ true
    → b ≡ true
unfolding start
start-thread p q comm spawns b e h k = elim (Option-cases p.transport) [
  | inl z ↦ cc (rw z at e)
  | inr (t, z) ↦ go (start_comm t comm).0 (start_comm t comm).1 spawns (rw z at e)
]
  where
    go :
        (t' : Transport) (started spawned : Bool)
        → ◌≡◌ {A = Run (Processor × Bool)}
            (ok (
              if started
              then if spawned
                then (
                  record p { transport = some t'; done = false; has_thread = true; running = true },
                  true,
                )
                else (record p { transport = some t'; done = false }, false)
              else (record p { transport = some t' }, false)))
            (ok (q, b))
        → b ≡ true
    go t' true true f = cc
    go t' true false f = cc
    go t' false spawned f = cc

handle-thread :
    (pb : Protobuf) (p : Processor) (cmd : Command) (sends : Bool) (r : Processed)
    → handle pb p cmd sends ≡ ok r
    → r.processor.has_thread ≡ p.has_thread
unfolding handle
handle-thread pb p cmd sends r e =
    let (x, e1, f1) =
      >>=_through _
        (answer cmd p.latest_result (
          if pb.byte_size cmd == 0
          then with_success cmd Success.is_false p.response
          else p.response))
        e in
    let (out, e2, f2) = >>=_through _ (send_to (socket_of p) (pb.serialize x) sends) f1 in cc

do_work-thread :
    (pb : Protobuf) (p : Processor) (sends : Bool) (r : Processed)
    → do_work pb p sends ≡ ok r
    → r.processor.has_thread ≡ p.has_thread
unfolding do_work process_commands process_queue
do_work-thread pb p sends r e = go p.running p.cmd_fifo e
  where
    stays : Run Processed
    stays = ok (record { processor = p; sent = none; ret = false })

    go :
        (b : Bool) (cmds : List Command)
        → (if b then if b then process_queue pb p cmds sends else stays else stays) ≡ ok r
        → r.processor.has_thread ≡ p.has_thread
    go false cmds f = cc
    go true [] f = cc
    go true (cmd ∷ cmds) f = handle-thread pb (record p { cmd_fifo = cmds }) cmd sends r f

serve-thread :
    (pb : Protobuf) (rounds : List Round) (p q : Processor)
    → serve pb rounds p ≡ ok q
    → q.has_thread ≡ p.has_thread
unfolding serve
serve-thread pb [] p q e = cc
serve-thread pb (i ∷ later) p q e = elim (Bool-cases p.running) [
  | inl h ↦
      let next = record p { cmd_fifo = p.cmd_fifo ++ i.queued } in
      let (r, found, f) = >>=_through _ (do_work pb next i.sends) (rw (h, serve) at e) in
      serve-thread pb later r.processor q f ∙ do_work-thread pb next i.sends r found
  | inr h ↦ cc (rw (h, serve) at e)
]

-- A program that ends with status zero read its configuration from the file that the argument names,
-- `init` returned true on the part of it for the command processor, and so did `Start`.
pub record CameThrough (lib : CJsonLib) (parse : Bytes → CJson) (w : World) (q : Processor)
    : Type 0 where
  pub file : File
  pub config : CJson
  pub ready : Processor
  pub named : w.argument ≡ some file
  pub read : read_json_from_file parse file w.beyond ≡ parsed config true
  pub began :
      init lib (lib.get_object_item config (codes "CommandProcessor")) w.opening new_processor
      ≡ ok (ready, true)
  pub is_ready : IsReady ready
  pub running : Processor
  pub started : start ready w.comm_spawns w.spawns ≡ ok (running, true)
  pub is_down : IsDown q

module _ (lib : CJsonLib) (pb : Protobuf) (parse : Bytes → CJson) (w : World) where
  run_processor-IsDown :
      (r : Processor × Bool) (q : Processor)
      → run_processor pb w r ≡ ok (status_zero q)
      → r.0.has_thread ≡ false
      → (r.1 ≡ true)
        × IsDown q
        × ((b : Processor) × (start r.0 w.comm_spawns w.spawns ≡ ok (b, true)))
  unfolding run_processor
  run_processor-IsDown (p, false) q e h = cc
  run_processor-IsDown (p, true) q e h =
      let (started, e1, f1) = >>=_through _ (start p w.comm_spawns w.spawns) e in
      let (served, e2, f2) = >>=_through _ (serve pb w.rounds started.0) f1 in
      let (stopped, e3, f3) = >>=_through _ (shutdown served) f2 in
      let same : stopped.0 ≡ q = cc in
      let (joins, down) = shutdown-IsDown served stopped.0 stopped.1 e3 in
      let born = sym (serve-thread pb w.rounds started.0 served e2) ∙ joins in
      let good = start-thread p started.0 w.comm_spawns w.spawns started.1 e1 h born in
      (refl, subst IsDown same down, (started.0, e1 ∙ ap (λ b. ok (started.0, b)) good))

  run_config-CameThrough :
      (file : File)
      → w.argument ≡ some file
      → (r : FileRead) (q : Processor) → read_json_from_file parse file w.beyond ≡ r
      → run_config lib pb w r ≡ ok (status_zero q)
      → CameThrough lib parse w q
  unfolding run_config new_processor
  run_config-CameThrough file z refused q e f = cc
  run_config-CameThrough file z threw q e f = cc
  run_config-CameThrough file z (parsed config false) q e f = cc
  run_config-CameThrough file z (parsed config true) q e f =
      let (debug, e1, f1) = >>=_through _ (get_attribute_value_bool config (codes "debug")) f in
      let (r, e2, f2) =
        >>=_through _
          (init lib (lib.get_object_item config (codes "CommandProcessor")) w.opening new_processor)
          f1 in
      let (empty, latest, response, unborn) =
        init-IsUntouched lib _ w.opening new_processor r.0 r.1 e2 in
      let (good, down, (running, started)) = run_processor-IsDown r q f2 unborn in
      let began = e2 ∙ ap (λ b. ok (r.0, b)) good in
      record {
        file = file;
        config = config;
        ready = r.0;
        named = z;
        read = e;
        began = began;
        is_ready = init-IsReady lib _ w.opening new_processor r.0 began;
        running = running;
        started = started;
        is_down = down;
      }

  -- When the program ends with status zero, the configuration was read from the file that the argument
  -- names, `init` returned true and left a transport over a listening socket, `Start` returned true, and
  -- at the end the processor does not run, its worker is marked as done and joined, and its transport is
  -- stopped.
  pub server_main-CameThrough :
      (q : Processor) → server_main lib pb parse w ≡ ok (status_zero q) → CameThrough lib parse w q
  unfolding server_main
  server_main-CameThrough q e = elim (Option-cases w.argument) [
    | inl z ↦ cc (rw z at e)
    | inr (file, z) ↦
        run_config-CameThrough file z (read_json_from_file parse file w.beyond) q refl (rw z at e)
  ]

  -- Where the file is read, `init` returns true and both threads are created: if no command has arrived
  -- before the first round of the main loop, the program runs into undefined behaviour.
  pub server_main-idle :
      (file : File) (config : CJson) (debug : Option Bool) (r : Processor) (i : Round)
      (later : List Round)
      → w.argument ≡ some file
      → read_json_from_file parse file w.beyond ≡ parsed config true
      → get_attribute_value_bool config (codes "debug") ≡ ok debug
      → init lib (lib.get_object_item config (codes "CommandProcessor")) w.opening new_processor
        ≡ ok (r, true)
      → w.comm_spawns ≡ true
      → w.spawns ≡ true
      → w.rounds ≡ i ∷ later
      → i.queued ≡ []
      → server_main lib pb parse w ≡ fault
  unfolding server_main run_config run_processor new_processor
  server_main-idle file config debug r i later z e d g c s rs q =
      let (p, begun, runs, kept) =
        start-IsReady r (init-IsReady lib _ w.opening new_processor r g) in
      let (empty, latest, response, unborn) =
        init-IsUntouched lib _ w.opening new_processor r true g in
      let idle = serve-idle pb i later p runs (rw (kept, empty, q) refl) in
      rw (z, e) (rw (d, g) (rw (c, s, begun, rs, idle) refl))
