-- ===== src/Command/Queue.antt =====
-- How received messages come into the queue of `CommandProcessor`, and how `quit` ends it.

use protobuf_sandbox.Prelude.{
  list_laws, ℕ, suc, ◌≡◌, refl, ap, ◌∙◌, Bool, true, false, not, ◌&&◌, ◌==◌, some, List, [], ◌∷◌,
  ◌++◌, map, Bytes, codes, contains, ok,
}
use protobuf_sandbox.Socket.{LinuxSocket, send_data}
use protobuf_sandbox.Transport.{deliver}
use protobuf_sandbox.Command.Process.{process_commands-handle}
use protobuf_sandbox.Command.Messages.{Command, Protobuf}
use protobuf_sandbox.Command.{
  Processor, socket_of, recv_cb_routine, process_commands, handle, answer,
}

-- The transport's calls of the callback, one after the other.
unfoldable pub recv_all : Protobuf → Processor → List (ℕ × Bytes) → Processor
recv_all pb p [] = p
recv_all pb p (x ∷ xs) = recv_all pb (recv_cb_routine pb p x).0 xs

-- The messages that the transport cuts off and numbers are queued as the commands that they parse to,
-- each once and in the order of their arrival, behind the commands that wait already.
pub recv_all-deliver :
    (pb : Protobuf) (p : Processor) (n : ℕ) (msgs : List Bytes)
    → recv_all pb p (deliver n msgs) ≡ record p { cmd_fifo = p.cmd_fifo ++ map pb.parse msgs }
unfolding recv_all recv_cb_routine deliver
recv_all-deliver pb p n [] = simp list_laws
recv_all-deliver pb p n (m ∷ msgs) =
    recv_all-deliver pb (record p { cmd_fifo = p.cmd_fifo ++ pb.parse m ∷ [] }) (suc n) msgs
    ∙ simp list_laws

answer_quit :
    (pb : Protobuf) (p : Processor) (cmd : Command) (sends : Bool) (s : LinuxSocket)
    → socket_of p ≡ some s
    → contains cmd.method (codes "quit") ≡ true
    → (pb.byte_size cmd == 0) ≡ false
    → handle pb p cmd sends
      ≡ ok (record {
        processor = record p { running = p.running && not p.exit_on_quit };
        sent = (send_data s (pb.serialize p.response) sends).0;
        ret = true;
      })
unfolding handle answer
answer_quit pb p cmd sends s sock quit big = rw (big, quit, sock) refl

-- While running, with a socket, a non-empty `quit` at the head of the queue is taken off, the processor keeps
-- running exactly if `exit_on_quit` is off, and the client gets the response to the command before
-- it once more, with that command's identifier.
pub process_commands_quit :
    (pb : Protobuf) (p : Processor) (sends : Bool) (cmd : Command) (rest : List Command)
    (s : LinuxSocket)
    → p.running ≡ true
    → p.cmd_fifo ≡ cmd ∷ rest
    → socket_of p ≡ some s
    → contains cmd.method (codes "quit") ≡ true
    → (pb.byte_size cmd == 0) ≡ false
    → process_commands pb p sends
      ≡ ok (record {
        processor = record p { cmd_fifo = rest; running = not p.exit_on_quit };
        sent = (send_data s (pb.serialize p.response) sends).0;
        ret = true;
      })
process_commands_quit pb p sends cmd rest s run fifo sock quit big =
    process_commands-handle pb p sends cmd rest run fifo
    ∙ answer_quit pb (record p { cmd_fifo = rest }) cmd sends s sock quit big
    ∙ ap
        (λ b. ok (record {
          processor = record p { cmd_fifo = rest; running = b && not p.exit_on_quit };
          sent = (send_data s (pb.serialize p.response) sends).0;
          ret = true;
        }))
        run
