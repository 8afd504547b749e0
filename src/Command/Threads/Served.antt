-- ===== src/Command/Threads/Served.antt =====
-- From the bytes that arrive to the replies, without a premise on how the schedule ends.
use protobuf_sandbox.Prelude.{
  ℕ, ◌≡◌, ◌⊎◌, refl, some, Option, List, ◌++◌, map, inl, inr, Bytes, ok, Run-cases, [],
}
use protobuf_sandbox.Prelude.Int.{ℤ}
use protobuf_sandbox.Socket.{LinuxSocket}
use protobuf_sandbox.Transport.{Transport, RxInput}
use protobuf_sandbox.Transport.Framing.{cut, NoNewline}
use protobuf_sandbox.Transport.Receive.{IsReceiving, block_input, texts}
use protobuf_sandbox.Command.Messages.{Command, Protobuf}
use protobuf_sandbox.Command.{Processor}
use protobuf_sandbox.Command.Threads.{System, Move, run_moves, start_system}
use protobuf_sandbox.Command.Threads.Replies.{in_flight, Replied}
use protobuf_sandbox.Command.Threads.Stream.{commands_of, inputs_of, stream_replies}
use protobuf_sandbox.Command.Threads.Breaks.{IsSteady, BreaksAt, run_moves_fault_iff}

IsReceiving-IsSteady :
    (p : Processor) (t : Transport) (sock : LinuxSocket) (fd : ℕ)
    → p.transport ≡ some t
    → IsReceiving t sock fd
    → IsSteady (start_system p)
unfolding start_system
IsReceiving-IsSteady p t sock fd q h = record {
  transport = t;
  uses = q;
  blocks = h.blocks;
  sound = rw (h.uses, h.connected, h.reads_from) refl;
}

-- One of the moves from a processor breaks; or the schedule runs to its end, the commands are those done
-- and behind them those open, of which the last are still to be pushed; `sendData` was called for each
-- of those done, `prev` being the identifier of the response before them.
abbrev pub IsServed : Protobuf → Option ℤ → List Command → List Move → Processor → Type 0
IsServed pb prev cmds moves p =
    BreaksAt pb moves (start_system p)
    ⊎ ((s : System) × (run_moves pb moves (start_system p) ≡ ok s)
        × ((done : List Command) × (cmds
              ≡ (done ++ (in_flight s.phase ++ s.processor.cmd_fifo)) ++ commands_of pb s.pending)
            × Replied pb prev done s.replies))

-- Blocks arrive at a processor with a transport that reads blocks from a connected socket, has a
-- callback and holds no newline yet, in any schedule of the three threads' moves. Either one of its moves
-- is a take from an empty queue, or a store or an answer to a `query` without coordinates; or the
-- schedule runs to its end. Then the commands that waited, followed by those that the lines of the byte
-- stream parse to, are those done up to some command, and behind it those still open. `sendData` was
-- called once for each that is done, in this order, with the serialized form of a response, which was
-- handed to `send` whole unless there was no client or it is empty; `send` may have failed. The response
-- has the command's identifier, or for a `quit` that of the response before it; it says OK to a `status`,
-- success to a `start` or `stop`, a radius to a `query`, and failure to the rest.
pub stream-IsServed :
    (pb : Protobuf) (p : Processor) (t : Transport) (sock : LinuxSocket) (fd : ℕ) (i : RxInput)
    (xs : List (ℕ × Bytes)) (moves : List Move)
    → p.transport ≡ some t
    → IsReceiving t sock fd
    → NoNewline t.cmd_buffer
    → inputs_of moves ≡ map (block_input i) xs
    → IsServed pb p.response.id
        (p.cmd_fifo ++ map pb.parse (cut [] (t.cmd_buffer ++ texts xs)).0)
        moves
        p
stream-IsServed pb p t sock fd i xs moves q h k inputs =
    elim (Run-cases (run_moves pb moves (start_system p))) [
      | inl z ↦
          let steady = IsReceiving-IsSteady p t sock fd q h in
          inl ((run_moves_fault_iff pb moves (start_system p) steady).0 z)
      | inr (s, z) ↦ inr (s, z, stream_replies pb p t sock fd i xs moves s q h k inputs z)
    ]
