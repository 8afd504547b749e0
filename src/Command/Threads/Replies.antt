-- ===== src/Command/Threads/Replies.antt =====
-- The replies that commands are due, and what holds of them between two moves of a schedule.

use protobuf_sandbox.Socket.{LinuxSocket, send_data}
use protobuf_sandbox.Command.Says.{kind_of, Says}
use protobuf_sandbox.Prelude.{
  length, none, true, false, Bool, list_laws, ℕ, ◌≡◌, refl, ◌∙◌, not, ◌&&◌, ◌==◌, Option, some,
  List, [], ◌∷◌, ◌++◌, map, arith, if◌then◌else◌, Bytes, codes, contains, ok, >>=_through,
}
use protobuf_sandbox.Prelude.Int.{ℤ}
use protobuf_sandbox.Command.Messages.{
  Command, Protobuf, Response, Result, get_center_point, set_center_point, result_of,
}
use protobuf_sandbox.Command.{Processor, answer, answer_query, recv_cb_routine}
use protobuf_sandbox.Command.Queue.{recv_all}
use protobuf_sandbox.Command.Threads.{Phase, idle, taken, replying, System, first_response}

-- The identifier under which a command is replied to, if the response before it had `prev`: its own,
-- but for a `quit` that one again.
abbrev pub reply_id : Protobuf → Option ℤ → Command → Option ℤ
reply_id pb prev cmd =
    if contains cmd.method (codes "quit") && not (pb.byte_size cmd == 0) then prev else some cmd.id

-- What a call of `sendData` with a text comes to: all of the text is handed to `send`, for the client's
-- descriptor and with its success; or there is no client, and the call fails; or the text is empty.
pub data Carries (text : Bytes) : Option (ℕ × Bytes) × Bool → Type 0 where
  handed : (fd : ℕ) (good : Bool) → Carries text (some (fd, text), good)
  no_client : Carries text (none, false)
  empty : text ≡ [] → Carries text (none, true)

no_text : (text : Bytes) → (length text == 0) ≡ true → text ≡ []
no_text [] e = refl
no_text (c ∷ text) e = ground (arith, e)

pub send_data-Carries :
    (s : LinuxSocket) (text : Bytes) (sends : Bool) → Carries text (send_data s text sends)
unfolding send_data
send_data-Carries s text sends = go (length text == 0) s.client_sock (no_text text)
  where
    go :
        (b : Bool) (o : Option ℕ)
        → (b ≡ true → text ≡ [])
        → Carries text (
            if b
            then (none, true)
            else elim o [ none ↦ (none, false) | some fd ↦ (some (fd, text), sends) ])
    go true o h = empty (h refl)
    go false none h = no_client
    go false (some fd) h = handed fd sends

-- The call carried the serialized form of a response to the command with the identifier.
abbrev pub IsReply : Protobuf → Command → Option ℤ → Option (ℕ × Bytes) × Bool → Type 0
IsReply pb cmd id out =
    (r : Response) × (r.id ≡ id) × Says (kind_of cmd.method) r × Carries (pb.serialize r) out

-- The specification of the replies to commands that are done: one call for each, in their order.
abbrev pub Replied : Protobuf → Option ℤ → List Command → List (Option (ℕ × Bytes) × Bool) → Type 0
Replied pb prev [] [] = Unit
Replied pb prev [] (out ∷ outs) = ⊥
Replied pb prev (cmd ∷ cmds) [] = ⊥
Replied pb prev (cmd ∷ cmds) (out ∷ outs) =
    IsReply pb cmd (reply_id pb prev cmd) out × Replied pb (reply_id pb prev cmd) cmds outs

-- The identifier of the response behind some commands.
abbrev pub last_id : Protobuf → Option ℤ → List Command → Option ℤ
last_id pb prev [] = prev
last_id pb prev (cmd ∷ cmds) = last_id pb (reply_id pb prev cmd) cmds

pub Replied-append :
    (pb : Protobuf) (prev : Option ℤ) (cmds : List Command)
    (outs : List (Option (ℕ × Bytes) × Bool)) (cmd : Command) (out : Option (ℕ × Bytes) × Bool)
    → Replied pb prev cmds outs
    → IsReply pb cmd (reply_id pb (last_id pb prev cmds) cmd) out
    → Replied pb prev (cmds ++ cmd ∷ []) (outs ++ out ∷ [])
Replied-append pb prev [] [] cmd out h k = (k, tt)
Replied-append pb prev [] (o ∷ outs) cmd out h k = elim h [ ]
Replied-append pb prev (c ∷ cmds) [] cmd out h k = elim h [ ]
Replied-append pb prev (c ∷ cmds) (o ∷ outs) cmd out (h, hs) k =
    (h, Replied-append pb (reply_id pb prev c) cmds outs cmd out hs k)

pub last_id-append :
    (pb : Protobuf) (prev : Option ℤ) (cmds : List Command) (cmd : Command)
    → last_id pb prev (cmds ++ cmd ∷ []) ≡ reply_id pb (last_id pb prev cmds) cmd
last_id-append pb prev [] cmd = refl
last_id-append pb prev (c ∷ cmds) cmd = last_id-append pb (reply_id pb prev c) cmds cmd

-- The command that the main thread works on.
abbrev pub in_flight : Phase → List Command
in_flight idle = []
in_flight (taken cmd) = cmd ∷ []
in_flight (replying cmd) = cmd ∷ []

abbrev pub due : Protobuf → Option ℤ → List Command → Phase → Option ℤ
due pb prev done idle = last_id pb prev done
due pb prev done (taken cmd) = last_id pb prev done
due pb prev done (replying cmd) = reply_id pb (last_id pb prev done) cmd

-- The response that waits to be sent answers the command.
abbrev pub Told : Phase → Response → Type 0
Told idle r = Unit
Told (taken cmd) r = Unit
Told (replying cmd) r = Says (kind_of cmd.method) r

-- The commands received are those done, the one in work and those in the queue, in this order, and
-- those done have had their replies.
pub record IsOrdered (pb : Protobuf) (first : Option ℤ) (s : System) : Type 0 where
  pub done : List Command
  pub kept : s.received ≡ done ++ (in_flight s.phase ++ s.processor.cmd_fifo)
  pub replied : Replied pb first done s.replies
  pub current : s.processor.response.id ≡ due pb first done s.phase
  pub told : Told s.phase s.processor.response

pub recv_all_lem :
    (pb : Protobuf) (msgs : List (ℕ × Bytes)) (p : Processor)
    → recv_all pb p msgs ≡ record p { cmd_fifo = p.cmd_fifo ++ map (λ m. pb.parse m.1) msgs }
unfolding recv_all recv_cb_routine
recv_all_lem pb [] p = simp list_laws
recv_all_lem pb (m ∷ msgs) p =
    recv_all_lem pb msgs (record p { cmd_fifo = p.cmd_fifo ++ pb.parse m.1 ∷ [] }) ∙ simp list_laws

pub answer_query-ok :
    (cmd : Command) (latest : Result) (r r' : Response)
    → answer_query cmd latest r ≡ ok r'
    → r'.id ≡ some cmd.id
unfolding answer_query
answer_query-ok cmd latest r r' e =
    let (x0, e0, f0) = >>=_through _ (get_center_point 0 latest.center_point) e in
    let (a, e1, f1) = >>=_through _ (set_center_point 0 x0 (result_of r).center_point) f0 in
    let (x1, e2, f2) = >>=_through _ (get_center_point 1 latest.center_point) f1 in
    let (b, e3, f3) = >>=_through _ (set_center_point 1 x1 a) f2 in cc

pub answer-ok :
    (cmd : Command) (latest : Result) (r r' : Response)
    → answer cmd latest r ≡ ok r'
    → r'.id ≡ (if contains cmd.method (codes "quit") then r.id else some cmd.id)
unfolding answer
answer-ok cmd latest r r' e = ground (arith, answer_query-ok cmd latest r r')

pub answer-reply_id :
    (pb : Protobuf) (cmd : Command) (latest : Result) (r r' : Response)
    → answer cmd latest (first_response pb cmd r) ≡ ok r'
    → r'.id ≡ reply_id pb r.id cmd
answer-reply_id pb cmd latest r r' e =
    ground (arith, answer-ok cmd latest (first_response pb cmd r) r' e)
