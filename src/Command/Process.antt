-- ===== src/Command/Process.antt =====
-- One call of `processCommands`, and the worker's `programLoop`.
use protobuf_sandbox.Prelude.{
  ◌<◌, ◌≡◌, ◌↔◌, refl, ap, ◌∙◌, Bool, true, false, none, some, List, [], ◌∷◌, arith, Bool-cases,
  inl, inr, codes, contains, length, ok, fault, ◌&&◌, ◌==◌, ◌>>=◌, if◌then◌else◌,
}
use protobuf_sandbox.Json.Node.{Double}
use protobuf_sandbox.Socket.{LinuxSocket, send_data}
use protobuf_sandbox.Command.Messages.{
  Command, Response, Result, Success, Status, Protobuf, set_center_point,
}
use protobuf_sandbox.Command.Says.{kind_of, Says, answer-Says}
use protobuf_sandbox.Command.{
  Processor, Processed, socket_of, process_commands, program_loop, answer, handle, process_queue,
  with_success, with_status,
}

-- Whatever it draws, `programLoop` is undefined behaviour exactly when the latest result has less
-- than two coordinates.
pub program_loop_fault_iff :
    (p : Processor) (radius x y : Double)
    → (program_loop p radius x y ≡ fault) ↔ (length p.latest_result.center_point < 2)
unfolding program_loop set_center_point
program_loop_fault_iff p radius x y = by_points p.latest_result.center_point
  where
    store : List Double → Processor × Bool
    store b = (
      record p {
        latest_result = record p.latest_result { contact_radius = some radius; center_point = b };
      },
      true,
    )

    by_points :
        (xs : List Double)
        → ((set_center_point 0 x xs >>= λ a. set_center_point 1 y a >>= λ b. ok (store b)) ≡ fault)
          ↔ (length xs < 2)
    by_points [] = ground arith
    by_points (a ∷ []) = ground arith
    by_points (a ∷ b ∷ rest) = ground arith

-- A command with its own identifier in the response, that needs no coordinates.
abbrev pub IsPlain : Command → Type 0
IsPlain cmd =
    (contains cmd.method (codes "quit") ≡ false) × (contains cmd.method (codes "query") ≡ false)

answer_id :
    (cmd : Command) (latest : Result) (r : Response)
    → IsPlain cmd
    → (r' : Response) × (answer cmd latest r ≡ ok r') × (r'.id ≡ some cmd.id)
unfolding answer
answer_id cmd latest r (h, d) = elim (Bool-cases (contains cmd.method (codes "status"))) [
  | inl a ↦ (with_status cmd Status.is_ok r, rw (h, a), refl)
  | inr a ↦ elim (Bool-cases (contains cmd.method (codes "start"))) [
    | inl b ↦ (with_success cmd Success.is_true r, rw (h, a, b), refl)
    | inr b ↦ elim (Bool-cases (contains cmd.method (codes "stop"))) [
      | inl c ↦ (with_success cmd Success.is_true r, rw (h, a, b, c), refl)
      | inr c ↦ (with_success cmd Success.is_false r, rw (h, a, b, c, d), refl)
    ]
  ]
]

handle_id :
    (pb : Protobuf) (p : Processor) (cmd : Command) (sends : Bool) (s : LinuxSocket) (r' : Response)
    → socket_of p ≡ some s
    → contains cmd.method (codes "quit") ≡ false
    → answer cmd p.latest_result
        (if pb.byte_size cmd == 0 then with_success cmd Success.is_false p.response else p.response)
      ≡ ok r'
    → handle pb p cmd sends
      ≡ ok (record {
        processor = record p { response = r'; running = p.running && true };
        sent = (send_data s (pb.serialize r') sends).0;
        ret = true;
      })
unfolding handle
handle_id pb p cmd sends s r' sock quit e = rw (e, sock, quit)

pub process_commands-handle :
    (pb : Protobuf) (p : Processor) (sends : Bool) (cmd : Command) (rest : List Command)
    → p.running ≡ true
    → p.cmd_fifo ≡ cmd ∷ rest
    → process_commands pb p sends ≡ handle pb (record p { cmd_fifo = rest }) cmd sends
unfolding process_commands process_queue
process_commands-handle pb p sends cmd rest run fifo =
    ap
      (λ b.
        if b
        then process_queue pb p p.cmd_fifo sends
        else ok (record { processor = p; sent = none; ret = false }))
      run
    ∙ ap (λ l. process_queue pb p l sends) fifo

-- What the call does with a response `r'` that the command is answered with.
abbrev pub answered :
    Protobuf → Processor → Bool → List Command → LinuxSocket → Response → Processed
answered pb p sends rest s r' = record {
  processor = record p { cmd_fifo = rest; response = r'; running = p.running && true };
  sent = (send_data s (pb.serialize r') sends).0;
  ret = true;
}

pub process_commands-answered :
    (pb : Protobuf) (p : Processor) (sends : Bool) (cmd : Command) (rest : List Command)
    (s : LinuxSocket)
    → p.running ≡ true
    → p.cmd_fifo ≡ cmd ∷ rest
    → socket_of p ≡ some s
    → IsPlain cmd
    → (r' : Response) × (process_commands pb p sends ≡ ok (answered pb p sends rest s r'))
      × (r'.id ≡ some cmd.id)
      × Says (kind_of cmd.method) r'
process_commands-answered pb p sends cmd rest s run fifo sock plain =
    let first =
      if pb.byte_size cmd == 0 then with_success cmd Success.is_false p.response else p.response in
    let (r', e, i) = answer_id cmd p.latest_result first plain in
    let h = handle_id pb (record p { cmd_fifo = rest }) cmd sends s r' sock plain.0 e in
    (
      r',
      process_commands-handle pb p sends cmd rest run fifo ∙ h,
      i,
      answer-Says cmd p.latest_result first r' e,
    )

-- While running, with a socket, and a queued command that is no `quit` and no `query`: `processCommands`
-- takes the oldest command off the queue, keeps running, returns true, and sends a response with the
-- identifier of that command.
pub process_commands_echo :
    (pb : Protobuf) (p : Processor) (sends : Bool) (cmd : Command) (rest : List Command)
    (s : LinuxSocket)
    → p.running ≡ true
    → p.cmd_fifo ≡ cmd ∷ rest
    → socket_of p ≡ some s
    → IsPlain cmd
    → (q : Processed) × (process_commands pb p sends ≡ ok q)
      × (q.processor.response.id ≡ some cmd.id)
      × (q.processor.cmd_fifo ≡ rest)
      × (q.processor.running ≡ true)
      × (q.ret ≡ true)
      × (q.sent ≡ (send_data s (pb.serialize q.processor.response) sends).0)
process_commands_echo pb p sends cmd rest s run fifo sock plain =
    let (r', e, i, says) = process_commands-answered pb p sends cmd rest s run fifo sock plain in
    (answered pb p sends rest s r', e, i, refl, rw run refl, refl, refl)
