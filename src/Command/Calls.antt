-- ===== src/Command/Calls.antt =====
-- The callback that `CommandProcessor` registers with the transport, and the transport's calls of it
-- (src/CommandProcessor.cpp, src/SocketTransport.cpp, src/Callback.h).
use mathlib.Core.List.{append_assoc}
use protobuf_sandbox.Prelude.{
  ℕ, ◌+◌, ◌≡◌, sym, ap, ◌∙◌, Bool, true, Option, none, some, List, [], ◌∷◌, ◌++◌, map, arith, Bytes,
  length,
}
use protobuf_sandbox.Callback.{Callback2, new_callback2, invoke2, invoke2_with}
use protobuf_sandbox.Transport.{deliver}
use protobuf_sandbox.Command.Messages.{Protobuf}
use protobuf_sandbox.Command.{Processor, recv_cb_routine}
use protobuf_sandbox.Command.Queue.{recv_all, recv_all-deliver}

abbrev pub RecvCallback : Type 0
RecvCallback = Callback2 Processor Bool ℕ Bytes

-- The callback that the constructor of the processor makes, with no identifier and no message.
unfoldable pub recv_callback : Protobuf → Processor → RecvCallback
unfolding new_callback2
recv_callback pb p = new_callback2 p (λ q i msg. recv_cb_routine pb q (i, msg)) 0 []

-- The `for` loop over the strings, from the count of calls on: `Invoke(++m_Invoke_Cnt, &cmdStr)`.
unfoldable pub invoke_all : ℕ → List Bytes → RecvCallback → RecvCallback
unfolding invoke2_with
invoke_all count [] cb = cb
invoke_all count (s ∷ strs) cb = invoke_all (count + 1) strs (invoke2_with cb (count + 1) s)

-- The callback of a processor between two calls.
abbrev pub calling : Protobuf → Processor → ℕ → Bytes → Option Bool → RecvCallback
calling pb p a b r = record {
  object = p;
  function = λ q i msg. recv_cb_routine pb q (i, msg);
  argument1 = a;
  argument2 = b;
  return_value = r;
}

invoke_all-calling :
    (pb : Protobuf) (strs : List Bytes) (s : Bytes) (p : Processor) (count a : ℕ) (b : Bytes)
    (r : Option Bool)
    → invoke_all count (strs ++ s ∷ []) (calling pb p a b r)
      ≡ calling pb
          (record p { cmd_fifo = p.cmd_fifo ++ map pb.parse (strs ++ s ∷ []) })
          (count + length strs + 1)
          s
          (some true)
unfolding invoke_all invoke2_with invoke2 recv_cb_routine
invoke_all-calling pb [] s p count a b r =
    let next = record p { cmd_fifo = p.cmd_fifo ++ pb.parse s ∷ [] } in
    ap (λ (n : ℕ). calling pb next n s (some true)) (omega arith)
invoke_all-calling pb (t ∷ strs) s p count a b r =
    invoke_all-calling pb strs s (record p { cmd_fifo = p.cmd_fifo ++ pb.parse t ∷ [] }) (count + 1)
      (count + 1) t (some true)
    ∙ ap (λ l. calling pb (record p { cmd_fifo = l }) (count + 1 + length strs + 1) s (some true))
        (append_assoc p.cmd_fifo (pb.parse t ∷ []) (map pb.parse (strs ++ s ∷ [])))
    ∙ ap
        (λ (n : ℕ).
          calling pb (record p { cmd_fifo = p.cmd_fifo ++ map pb.parse (t ∷ strs ++ s ∷ []) }) n s
            (some true))
        (omega arith)

-- The loop over some strings through the callback of a processor: the processor has, behind the commands
-- that wait, the one that each string parses to, in order, which is what the calls of its member
-- function leave, nothing else of it has changed, and the callback holds the number and the string of
-- the last call and the value true.
pub invoke_all-recv_all :
    (pb : Protobuf) (p : Processor) (count : ℕ) (strs : List Bytes) (s : Bytes)
    → (invoke_all count (strs ++ s ∷ []) (recv_callback pb p)
        ≡ calling pb
            (record p { cmd_fifo = p.cmd_fifo ++ map pb.parse (strs ++ s ∷ []) })
            (count + length strs + 1)
            s
            (some true))
      × ((invoke_all count (strs ++ s ∷ []) (recv_callback pb p)).object
          ≡ recv_all pb p (deliver count (strs ++ s ∷ [])))
unfolding recv_callback
invoke_all-recv_all pb p count strs s =
    let whole = invoke_all-calling pb strs s p count 0 [] none in
    (whole, ap (λ cb. cb.object) whole ∙ sym (recv_all-deliver pb p count (strs ++ s ∷ [])))
