-- ===== src/Command/Stream.antt =====
-- From the bytes that arrive at the transport to the queue of the processor.
use protobuf_sandbox.Prelude.{[], ℕ, ◌≡◌, List, ◌++◌, map, Bytes, ok}
use protobuf_sandbox.Socket.{LinuxSocket}
use protobuf_sandbox.Transport.{Transport, RxInput, deliver}
use protobuf_sandbox.Transport.Framing.{cut, NoNewline}
use protobuf_sandbox.Transport.Receive.{
  run_rx, run_rx-blocks, IsReceiving, block_input, texts, advanced,
}
use protobuf_sandbox.Command.Messages.{Protobuf}
use protobuf_sandbox.Command.{Processor}
use protobuf_sandbox.Command.Queue.{recv_all, recv_all-deliver}

-- On a transport that reads blocks from a connected socket, has a callback, and holds no newline yet:
-- the rounds that receive some blocks end without a fault, and the calls that they make leave in the
-- processor's queue, behind what waits there, the command that each line of the stream parses to, in
-- order. The stream is what was left of the blocks before, and of each block its bytes up to a NUL.
pub run_rx-recv_all :
    (pb : Protobuf) (p : Processor) (xs : List (ℕ × Bytes)) (t : Transport) (s : LinuxSocket)
    (fd : ℕ) (i : RxInput)
    → IsReceiving t s fd
    → NoNewline t.cmd_buffer
    → (t' : Transport) × (calls : List (ℕ × Bytes)) × (run_rx t (map (block_input i) xs)
        ≡ ok (t', calls))
      × (recv_all pb p calls ≡ record p {
        cmd_fifo = p.cmd_fifo ++ map pb.parse (cut [] (t.cmd_buffer ++ texts xs)).0;
      })
run_rx-recv_all pb p xs t s fd i h k =
    let r = cut [] (t.cmd_buffer ++ texts xs) in
    (
      advanced t s r,
      deliver t.invoke_cnt r.0,
      run_rx-blocks xs t s fd i h k,
      recv_all-deliver pb p t.invoke_cnt r.0,
    )
