-- ===== src/Transport/Receive.antt =====
-- Rounds of the receiving thread, one after the other.
use mathlib.Core.List.{append_assoc, append-nil}
use protobuf_sandbox.Prelude.{
  ℕ, suc, ◌+◌, ◌≡◌, refl, ap, ◌∙◌, true, some, List, [], ◌∷◌, ◌++◌, map, arith, Bytes, c_str,
  length, length-append, Run, ok, ◌>>=◌,
}
use protobuf_sandbox.Socket.Types.{State}
use protobuf_sandbox.Socket.{LinuxSocket, Received, read_block}
use protobuf_sandbox.Transport.{Transport, ReadMode, RxInput, update_rx, deliver}
use protobuf_sandbox.Transport.Framing.{
  cut, cut_further, cut_left, cut-NoNewline, drain_enough, NoNewline,
}

-- The rounds on a list of inputs: the transport at the end, and all calls of the callback.
unfoldable pub run_rx : Transport → List RxInput → Run (Transport × List (ℕ × Bytes))
run_rx t [] = ok (t, [])
run_rx t (i ∷ inputs) = do
  r ← update_rx t i
  rest ← run_rx r.transport inputs
  ok (rest.0, r.delivered ++ rest.1)

pub deliver-append :
    (n : ℕ) (xs ys : List Bytes) → deliver n (xs ++ ys) ≡ deliver n xs ++ deliver (n + length xs) ys
unfolding deliver
deliver-append n [] ys = ap (λ (m : ℕ). deliver m ys) (omega arith)
deliver-append n (x ∷ xs) ys = ap (◌∷◌ (suc n, x)) (
    deliver-append (suc n) xs ys ∙ ap (λ (m : ℕ). deliver (suc n) xs ++ deliver m ys) (omega arith))

-- The transport reads blocks from a connected socket, and has a callback.
pub record IsReceiving (t : Transport) (s : LinuxSocket) (fd : ℕ) : Type 0 where
  pub uses : t.socket ≡ some s
  pub connected : s.state ≡ State.connected
  pub reads_from : s.client_sock ≡ some fd
  pub blocks : t.receive_mode ≡ ReadMode.block
  pub calls_back : t.has_callback ≡ true

-- The input of a round in which `recv` hands over a block.
abbrev pub block_input : RxInput → ℕ × Bytes → RxInput
block_input i (b, bs) = record i { received = Received.bytes b bs }

-- What a block adds to `m_CmdBuffer`.
abbrev pub text_of : ℕ × Bytes → Bytes
text_of (b, bs) = c_str (b ∷ bs)

abbrev pub texts : List (ℕ × Bytes) → Bytes
texts [] = []
texts (x ∷ xs) = text_of x ++ texts xs

-- The transport after strings were handed over and `left` was kept.
abbrev pub advanced : Transport → LinuxSocket → List Bytes × Bytes → Transport
advanced t s (strs, left) = record t {
  socket = some s;
  cmd_buffer = left;
  invoke_cnt = t.invoke_cnt + length strs;
}

update_rx-block :
    (t : Transport) (s : LinuxSocket) (fd : ℕ) (i : RxInput) (x : ℕ × Bytes)
    → IsReceiving t s fd
    → update_rx t (block_input i x)
      ≡ ok (record {
        transport = advanced t s (cut [] (t.cmd_buffer ++ text_of x));
        delivered = deliver t.invoke_cnt (cut [] (t.cmd_buffer ++ text_of x)).0;
        ret = true;
      })
unfolding update_rx read_block
update_rx-block t s fd i (b, bs) h =
    let buffer = t.cmd_buffer ++ c_str (b ∷ bs) in
    ground (arith, drain_enough (length buffer) buffer (omega arith))

IsReceiving-advanced :
    (t : Transport) (s : LinuxSocket) (fd : ℕ) (r : List Bytes × Bytes)
    → IsReceiving t s fd
    → IsReceiving (advanced t s r) s fd
IsReceiving-advanced t s fd r h = record {
  uses = refl;
  connected = h.connected;
  reads_from = h.reads_from;
  blocks = h.blocks;
  calls_back = h.calls_back;
}

-- On a transport that reads blocks from a connected socket, has a callback, and holds no newline yet,
-- blocks that arrive one after the other are cut into commands as one stream, wherever the blocks
-- end: behind what was left in `m_CmdBuffer`, each block adds its bytes up to the first NUL. Each
-- command goes to the callback once, in order, with consecutive numbers.
pub run_rx-blocks :
    (xs : List (ℕ × Bytes)) (t : Transport) (s : LinuxSocket) (fd : ℕ) (i : RxInput)
    → IsReceiving t s fd
    → NoNewline t.cmd_buffer
    → run_rx t (map (block_input i) xs)
      ≡ ok (
        advanced t s (cut [] (t.cmd_buffer ++ texts xs)),
        deliver t.invoke_cnt (cut [] (t.cmd_buffer ++ texts xs)).0,
      )
unfolding run_rx deliver
run_rx-blocks [] t s fd i h k =
    rw (append-nil t.cmd_buffer) (rw (cut-NoNewline t.cmd_buffer [] k) (ground (arith, h.uses)))
run_rx-blocks (x ∷ xs) t s fd i h k =
    let p = cut [] (t.cmd_buffer ++ text_of x) in
    let later =
      run_rx-blocks xs (advanced t s p) s fd i (IsReceiving-advanced t s fd p h)
        (cut_left (t.cmd_buffer ++ text_of x)) in
    rw (update_rx-block t s fd i x h) (
      rw later (
        rw (← append_assoc t.cmd_buffer (text_of x) (texts xs)) (
          rw (cut_further (t.cmd_buffer ++ text_of x) (texts xs)) (
            ground (
              arith,
              deliver-append t.invoke_cnt p.0 (cut [] (p.1 ++ texts xs)).0,
              length-append p.0 (cut [] (p.1 ++ texts xs)).0,
            )))))
