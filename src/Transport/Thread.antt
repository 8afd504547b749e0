-- ===== src/Transport/Thread.antt =====
-- The other operations of src/SocketTransport.cpp, and the loop of its thread, `thread_func`, which
-- `StopComm` ends from another thread.
use protobuf_sandbox.Prelude.{
  ℕ, ◌≡◌, refl, ap, ◌∙◌, Bool, true, false, Option, none, some, List, [], ◌∷◌, ◌++◌, map, arith,
  Bytes, Run, ok, fault, ◌>>=◌, Post, Post-if, returns, faults, Post-of_ok, subst, leb, length,
}
use protobuf_sandbox.Prelude.Int.{ℤ, pos, negsuc}
use protobuf_sandbox.Socket.Types.{State}
use protobuf_sandbox.Socket.{
  LinuxSocket, Connecting, read_block, reset_connection, close_connection,
}
use protobuf_sandbox.Transport.{
  Transport, ReadMode, read_block_size, RxInput, Round, update_rx, rx_with, rx_in, receive,
  after_read, take_in,
}
use protobuf_sandbox.Transport.Receive.{run_rx}

-- `ResetConnection` and `CloseConnection`; a NULL `m_Socket` faults.
unfoldable pub reset_transport : Transport → Connecting → Run (Transport × Bool)
reset_transport t a = elim t.socket [
  | none ↦ fault
  | some s ↦ let (s', back) = reset_connection s a in ok (record t { socket = some s' }, back)
]

unfoldable pub close_transport : Transport → Run (Transport × Bool)
close_transport t = elim t.socket [
  | none ↦ fault
  | some s ↦ let (s', closed) = close_connection s in ok (record t { socket = some s' }, closed)
]

-- `TransmitData` of a buffer, or of NULL: it sends nothing.
unfoldable pub transmit_data : Option Bytes → Bool
transmit_data none = false
transmit_data (some data_buffer) = true

-- Only a sleep.
unfoldable pub update_tx : Transport → Transport × Bool
update_tx t = (t, true)

-- `doWork`, whose first value is lost.
unfoldable pub work_transport : Transport → RxInput → Run Round
unfolding update_tx
work_transport t i = let (t', sent) = update_tx t in update_rx t' i

-- A round of the thread, or the store `Done = true` of another one.
pub data ThreadStep : Type 0 where
  round : RxInput → ThreadStep
  set_done : ThreadStep

-- `while (!threadHelper->Done)`, with the calls of the callback.
unfoldable pub thread_func : Transport → List ThreadStep → Run (Transport × List (ℕ × Bytes))
thread_func t [] = ok (t, [])
thread_func t (set_done ∷ steps) = thread_func (record t { rx_done = true }) steps
thread_func t (round i ∷ steps) = elim t.rx_done [
  | true ↦ ok (t, [])
  | false ↦ do
    r ← update_rx t i
    rest ← thread_func r.transport steps
    ok (rest.0, r.delivered ++ rest.1)
]

-- A round keeps the mark of the thread's end, and the mode.
abbrev pub HasSettingsOf : Transport → Transport → Type 0
HasSettingsOf t t' = (t'.rx_done ≡ t.rx_done) × (t'.receive_mode ≡ t.receive_mode)

after_read-HasSettingsOf :
    (t : Transport) (s : LinuxSocket) (a : Connecting) (text : Bytes) (n : ℤ) (ret : Bool)
    → HasSettingsOf t (after_read t s a (text, n, ret)).transport
unfolding after_read take_in
after_read-HasSettingsOf t s a text (pos n) true = (ground arith, ground arith)
after_read-HasSettingsOf t s a text (negsuc n) true = (refl, refl)
after_read-HasSettingsOf t s a text n false = (refl, refl)

receive-HasSettingsOf :
    (m : ReadMode) (t : Transport) (s : LinuxSocket) (i : RxInput)
    → Post (λ r. HasSettingsOf t r.transport) Unit (receive m t s i)
unfolding receive
receive-HasSettingsOf ReadMode.block t s i =
    let (text, n, ret) = read_block s i.received in
    returns (after_read-HasSettingsOf t s i.connecting text n ret)
receive-HasSettingsOf ReadMode.line t s i =
    Post-if (leb read_block_size (length i.line.text)) (λ e. faults tt)
      (λ e. returns (
        after_read-HasSettingsOf t (record s { state = i.line.state }) i.connecting i.line.text
          i.line.num_read i.line.ret))
receive-HasSettingsOf ReadMode.until t s i = returns (refl, refl)

rx_in-HasSettingsOf :
    (st : State) (t : Transport) (s : LinuxSocket) (i : RxInput)
    → Post (λ r. HasSettingsOf t r.transport) Unit (rx_in st t s i)
unfolding rx_in
rx_in-HasSettingsOf State.connected t s i = receive-HasSettingsOf t.receive_mode t s i
rx_in-HasSettingsOf State.no_connection t s i = returns (refl, refl)
rx_in-HasSettingsOf State.server_port_setup t s i = returns (refl, refl)
rx_in-HasSettingsOf State.server_listening t s i = returns (refl, refl)
rx_in-HasSettingsOf State.unknown t s i = returns (refl, refl)

rx_with-HasSettingsOf :
    (o : Option LinuxSocket) (t : Transport) (i : RxInput)
    → Post (λ r. HasSettingsOf t r.transport) Unit (rx_with o t i)
unfolding rx_with
rx_with-HasSettingsOf none t i = faults tt
rx_with-HasSettingsOf (some s) t i = rx_in-HasSettingsOf s.state t s i

pub update_rx-HasSettingsOf :
    (t : Transport) (i : RxInput) → Post (λ r. HasSettingsOf t r.transport) Unit (update_rx t i)
unfolding update_rx
update_rx-HasSettingsOf t i = rx_with-HasSettingsOf t.socket t i

-- Once it is done, the thread runs no further round.
thread_func-done :
    (steps : List ThreadStep) (t : Transport)
    → thread_func (record t { rx_done = true }) steps ≡ ok (record t { rx_done = true }, [])
unfolding thread_func
thread_func-done [] t = refl
thread_func-done (set_done ∷ steps) t = thread_func-done steps t
thread_func-done (round i ∷ steps) t = refl

-- The transport that is marked as done.
abbrev pub ended : Transport × List (ℕ × Bytes) → Run (Transport × List (ℕ × Bytes))
ended r = ok (record r.0 { rx_done = true }, r.1)

behind_ended :
    (calls : List (ℕ × Bytes)) (m : Run (Transport × List (ℕ × Bytes)))
    → (m >>= ended >>= λ rest. ok (rest.0, calls ++ rest.1))
      ≡ ((m >>= λ rest. ok (rest.0, calls ++ rest.1)) >>= ended)
behind_ended calls fault = refl
behind_ended calls (ok r) = refl

-- A thread that is not done makes exactly the rounds in front of the first `Done = true`, with their
-- calls of the callback, and faults where one of them does: no later input has an effect.
pub thread_func-run_rx :
    (inputs : List RxInput) (later : List ThreadStep) (t : Transport)
    → t.rx_done ≡ false
    → thread_func t (map round inputs ++ set_done ∷ later) ≡ (run_rx t inputs >>= ended)
unfolding thread_func run_rx
thread_func-run_rx [] later t h = thread_func-done later t
thread_func-run_rx (i ∷ inputs) later t h =
    ap
      (elim [
        | true ↦ ok (t, [])
        | false ↦
            (update_rx t i >>= λ r.
            thread_func r.transport (map round inputs ++ set_done ∷ later) >>= λ rest.
            ok (rest.0, r.delivered ++ rest.1))
      ])
      h
    ∙ go (update_rx t i) (λ r e.
      thread_func-run_rx inputs later r.transport
        ((Post-of_ok (subst (Post _ Unit) e (update_rx-HasSettingsOf t i))).0 ∙ h))
  where
    go :
        (m : Run Round)
        → ((r : Round)
            → m ≡ ok r
            → thread_func r.transport (map round inputs ++ set_done ∷ later)
              ≡ (run_rx r.transport inputs >>= ended))
        → (m >>= λ r. thread_func r.transport (map round inputs ++ set_done ∷ later) >>= λ rest.
            ok (rest.0, r.delivered ++ rest.1))
          ≡ ((m >>= λ r. run_rx r.transport inputs >>= λ rest. ok (rest.0, r.delivered ++ rest.1))
              >>= ended)
    go fault ih = refl
    go (ok r) ih =
        ap (λ m. m >>= λ rest. ok (rest.0, r.delivered ++ rest.1)) (ih r refl)
        ∙ behind_ended r.delivered (run_rx r.transport inputs)
