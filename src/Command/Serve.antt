-- ===== src/Command/Serve.antt =====
-- The main loop of src/server.cpp, and what it answers.
use protobuf_sandbox.Prelude.{
  Bytes, ℕ, zero, suc, ◌≡◌, refl, ap, ◌∙◌, Bool, true, false, Option, none, some, List, [], ◌∷◌,
  length, Run, ok, fault, ◌>>=◌, All, if◌then◌else◌,
}
use protobuf_sandbox.Socket.{LinuxSocket, send_data}
use protobuf_sandbox.Command.Messages.{Command, Protobuf, Response}
use protobuf_sandbox.Command.{
  Processor, Processed, socket_of, do_work, process_commands, process_queue,
}
use protobuf_sandbox.Command.Says.{kind_of, Says}
use protobuf_sandbox.Command.Process.{IsPlain, answered, process_commands-answered}

-- `while (!CtrlC && cmd->IsRunning())`: the rounds before CtrlC is pressed, with what each handed
-- to `send`, and for which descriptor.
unfoldable pub main_loop :
    Protobuf → Bool → ℕ → Processor → Run (Processor × List (Option (ℕ × Bytes)))
main_loop pb sends zero p = ok (p, [])
main_loop pb sends (suc rounds) p = elim p.running [
  | false ↦ ok (p, [])
  | true ↦ do
    r ← do_work pb p sends
    rest ← main_loop pb sends rounds r.processor
    ok (rest.0, r.sent ∷ rest.1)
]

-- It works on the queue `cmds` over a socket.
pub record IsServing (p : Processor) (cmds : List Command) (s : LinuxSocket) : Type 0 where
  pub running : p.running ≡ true
  pub queued : p.cmd_fifo ≡ cmds
  pub uses : socket_of p ≡ some s

-- What was handed to `send` over the socket, for each command: a response with its identifier.
abbrev pub Answered :
    Protobuf → LinuxSocket → Bool → List Command → List (Option (ℕ × Bytes)) → Type 0
Answered pb s sends [] [] = Unit
Answered pb s sends [] (out ∷ outs) = ⊥
Answered pb s sends (cmd ∷ cmds) [] = ⊥
Answered pb s sends (cmd ∷ cmds) (out ∷ outs) =
    ((r : Response) × (r.id ≡ some cmd.id)
      × Says (kind_of cmd.method) r
      × (out ≡ (send_data s (pb.serialize r) sends).0))
    × Answered pb s sends cmds outs

main_loop-round :
    (pb : Protobuf) (sends : Bool) (rounds : ℕ) (p : Processor)
    → p.running ≡ true
    → main_loop pb sends (suc rounds) p ≡ (
        process_commands pb p sends >>= λ r.
        main_loop pb sends rounds r.processor >>= λ rest. ok (rest.0, r.sent ∷ rest.1))
unfolding main_loop do_work
main_loop-round pb sends rounds p run =
    ap
      (elim [
        | false ↦ ok (p, [])
        | true ↦
            (do_work pb p sends >>= λ r.
            main_loop pb sends rounds r.processor >>= λ rest. ok (rest.0, r.sent ∷ rest.1))
      ])
      run
    ∙ ap
        (λ (w : Run Processed).
          w >>= λ r. main_loop pb sends rounds r.processor >>= λ rest. ok (rest.0, r.sent ∷ rest.1))
        (ap
          (λ b.
            if b
            then process_commands pb p sends
            else ok (record { processor = p; sent = none; ret = false }))
          run)

IsServing-answered :
    (pb : Protobuf) (sends : Bool) (cmd : Command) (cmds : List Command) (p : Processor)
    (s : LinuxSocket) (r : Response)
    → IsServing p (cmd ∷ cmds) s
    → IsServing (answered pb p sends cmds s r).processor cmds s
IsServing-answered pb sends cmd cmds p s r h = record {
  running = rw h.running refl;
  queued = refl;
  uses = h.uses;
}

-- One round on a queue that is not empty.
serve_one :
    (pb : Protobuf) (sends : Bool) (rounds : ℕ) (cmd : Command) (cmds : List Command)
    (p : Processor) (s : LinuxSocket)
    → IsServing p (cmd ∷ cmds) s
    → IsPlain cmd
    → (q : Processor) × (r : Response) × IsServing q cmds s
      × (r.id ≡ some cmd.id)
      × Says (kind_of cmd.method) r
      × (main_loop pb sends (suc rounds) p ≡ (
          main_loop pb sends rounds q >>= λ rest.
          ok (rest.0, (send_data s (pb.serialize r) sends).0 ∷ rest.1)))
serve_one pb sends rounds cmd cmds p s h plain =
    let (r, e, i, says) =
      process_commands-answered pb p sends cmd cmds s h.running h.queued h.uses plain in
    (
      (answered pb p sends cmds s r).processor,
      r,
      IsServing-answered pb sends cmd cmds p s r h,
      i,
      says,
      main_loop-round pb sends rounds p h.running
          ∙ ap
              (λ (w : Run Processed). w >>= λ r.
                main_loop pb sends rounds r.processor >>= λ rest. ok (rest.0, r.sent ∷ rest.1))
              e,
    )

-- While running, over a socket, with a queue of commands of which none is a `quit` or a `query`: in as
-- many rounds of the main loop as there are commands, each in the order of the queue has one response
-- serialized under its own identifier and given to `sendData` on that socket, which says OK to a `status`,
-- success to a `start` or `stop`, and failure to the rest, and the queue is empty.
pub main_loop-answers :
    (pb : Protobuf) (sends : Bool) (cmds : List Command) (p : Processor) (s : LinuxSocket)
    → IsServing p cmds s
    → All IsPlain cmds
    → (q : Processor) × (outs : List (Option (ℕ × Bytes))) × IsServing q [] s
      × (main_loop pb sends (length cmds) p ≡ ok (q, outs))
      × Answered pb s sends cmds outs
unfolding main_loop
main_loop-answers pb sends [] p s h plain = (p, [], h, refl, tt)
main_loop-answers pb sends (cmd ∷ cmds) p s h (plain, later) =
    let (next, r, on, i, says, e) = serve_one pb sends (length cmds) cmd cmds p s h plain in
    let (q, outs, done, f, rest) = main_loop-answers pb sends cmds next s on later in
    let out = (send_data s (pb.serialize r) sends).0 in
    (
      q,
      out ∷ outs,
      done,
      e
          ∙ ap
              (λ (w : Run (Processor × List (Option (ℕ × Bytes)))).
                w >>= λ rest. ok (rest.0, out ∷ rest.1))
              f,
      ((r, i, says, refl), rest),
    )

drained :
    (pb : Protobuf) (sends : Bool) (p : Processor) (s : LinuxSocket)
    → IsServing p [] s
    → main_loop pb sends 1 p ≡ fault
unfolding main_loop process_commands process_queue
drained pb sends p s h =
    main_loop-round pb sends 0 p h.running
    ∙ ap
        (λ (w : Run Processed).
          w >>= λ r. main_loop pb sends 0 r.processor >>= λ rest. ok (rest.0, r.sent ∷ rest.1))
        (ap
            (λ b.
              if b
              then process_queue pb p p.cmd_fifo sends
              else ok (record { processor = p; sent = none; ret = false }))
            h.running
          ∙ ap (λ l. process_queue pb p l sends) h.queued)

-- While running, over a socket, with a queue of commands of which none is a `quit` or a `query`: if no
-- further command arrives, one round more than there are commands runs into undefined behaviour.
pub main_loop_drained :
    (pb : Protobuf) (sends : Bool) (cmds : List Command) (p : Processor) (s : LinuxSocket)
    → IsServing p cmds s
    → All IsPlain cmds
    → main_loop pb sends (suc (length cmds)) p ≡ fault
main_loop_drained pb sends [] p s h plain = drained pb sends p s h
main_loop_drained pb sends (cmd ∷ cmds) p s h (plain, later) =
    let (next, r, on, i, says, e) = serve_one pb sends (suc (length cmds)) cmd cmds p s h plain in
    e
    ∙ ap
        (λ (w : Run (Processor × List (Option (ℕ × Bytes)))).
          w >>= λ rest. ok (rest.0, (send_data s (pb.serialize r) sends).0 ∷ rest.1))
        (main_loop_drained pb sends cmds next s on later)
