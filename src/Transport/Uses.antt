-- ===== src/Transport/Uses.antt =====
-- What the receiving thread (src/SocketTransport.cpp) does to its socket: it only uses two of its
-- operations, `ListenForClient` and `ResetConnection`.
use protobuf_sandbox.Prelude.{
  ℕ, ◌+◌, ◌≡◌, refl, sym, ap, ◌∙◌, Bool, true, false, some, List, [], ◌∷◌, ◌++◌, arith, Bytes, ok,
  >>=_through, ok_injective, subst, if◌then◌else◌, Post-of_ok, Post,
}
use protobuf_sandbox.Prelude.Int.{ℤ, pos, negsuc}
use protobuf_sandbox.Socket.Types.{State}
use protobuf_sandbox.Socket.{LinuxSocket, Connecting, read_block}
use protobuf_sandbox.Socket.Descriptors.{
  Use, listen, reset, after_use, run_uses, Granted, forgotten,
}
use protobuf_sandbox.Socket.Descriptors.Owned.{Owned, Fine}
use protobuf_sandbox.Socket.Descriptors.Uses.{run_uses-Owned}
use protobuf_sandbox.Transport.{
  Transport, ReadMode, RxInput, Round, update_rx, rx_with, rx_in, receive, after_read, take_in,
}
use protobuf_sandbox.Transport.Receive.{run_rx}
use protobuf_sandbox.Transport.Thread.{update_rx-HasSettingsOf}

-- The operation of a round in block mode, if there is one.
abbrev pub uses_in : State → LinuxSocket → RxInput → List Use
uses_in State.no_connection s i = reset i.connecting ∷ []
uses_in State.server_port_setup s i = listen i.accepted ∷ []
uses_in State.connected s i =
    let (text, n, ret) = read_block s i.received in if ret then [] else reset i.connecting ∷ []
uses_in _ s i = []

abbrev pub after_uses : LinuxSocket → List Use → LinuxSocket
after_uses s us = (run_uses s us).0

-- The operations of some rounds.
abbrev pub uses_of : LinuxSocket → List RxInput → List Use
uses_of s [] = []
uses_of s (i ∷ inputs) = let us = uses_in s.state s i in us ++ uses_of (after_uses s us) inputs

after_read-socket :
    (t : Transport) (s : LinuxSocket) (a : Connecting) (text : Bytes) (n : ℤ) (ret : Bool)
    → (after_read t s a (text, n, ret)).transport.socket
      ≡ some (after_uses s (if ret then [] else reset a ∷ []))
unfolding after_read take_in run_uses after_use
after_read-socket t s a text (pos n) true = ground arith
after_read-socket t s a text (negsuc n) true = refl
after_read-socket t s a text n false = refl

rx_in-socket :
    (st : State) (t : Transport) (s : LinuxSocket) (i : RxInput) (r : Round)
    → t.socket ≡ some s
    → t.receive_mode ≡ ReadMode.block
    → rx_in st t s i ≡ ok r
    → r.transport.socket ≡ some (after_uses s (uses_in st s i))
unfolding rx_in receive run_uses after_use
rx_in-socket State.connected t s i r u m e =
    let same = ok_injective (sym (ap (λ mode. receive mode t s i) m) ∙ e) in
    let (text, n, ret) = read_block s i.received in
    ap (λ (q : Round). q.transport.socket) (sym same)
    ∙ after_read-socket t s i.connecting text n ret
rx_in-socket State.no_connection t s i r u m e =
    ap (λ (q : Round). q.transport.socket) (sym (ok_injective e))
rx_in-socket State.server_port_setup t s i r u m e =
    ap (λ (q : Round). q.transport.socket) (sym (ok_injective e))
rx_in-socket State.server_listening t s i r u m e =
    ap (λ (q : Round). q.transport.socket) (sym (ok_injective e)) ∙ u
rx_in-socket State.unknown t s i r u m e =
    ap (λ (q : Round). q.transport.socket) (sym (ok_injective e)) ∙ u

update_rx-socket :
    (t : Transport) (s : LinuxSocket) (i : RxInput) (r : Round)
    → t.socket ≡ some s
    → t.receive_mode ≡ ReadMode.block
    → update_rx t i ≡ ok r
    → (r.transport.socket ≡ some (after_uses s (uses_in s.state s i)))
      × (r.transport.receive_mode ≡ ReadMode.block)
unfolding update_rx rx_with
update_rx-socket t s i r u m e =
    let kept = Post-of_ok (subst (Post _ Unit) e (update_rx-HasSettingsOf t i)) in
    (rx_in-socket s.state t s i r u m (sym (ap (λ o. rx_with o t i) u) ∙ e), kept.1 ∙ m)

after_uses-append :
    (us vs : List Use) (s : LinuxSocket) → after_uses s (us ++ vs) ≡ after_uses (after_uses s us) vs
unfolding run_uses
after_uses-append [] vs s = refl
after_uses-append (u ∷ us) vs s = after_uses-append us vs (after_use s u)

-- What the rounds in block mode leave of the socket is what these uses of it leave.
pub run_rx-after_uses :
    (inputs : List RxInput) (t t' : Transport) (s : LinuxSocket) (calls : List (ℕ × Bytes))
    → t.socket ≡ some s
    → t.receive_mode ≡ ReadMode.block
    → run_rx t inputs ≡ ok (t', calls)
    → t'.socket ≡ some (after_uses s (uses_of s inputs))
unfolding run_rx run_uses
run_rx-after_uses [] t t' s calls u m e = ap (λ r. r.0.socket) (sym (ok_injective e)) ∙ u
run_rx-after_uses (i ∷ inputs) t t' s calls u m e =
    let (r, round, f) = >>=_through _ (update_rx t i) e in
    let ((t2, later), rest, g) = >>=_through _ (run_rx r.transport inputs) f in
    let (next, mode) = update_rx-socket t s i r u m round in
    let us = uses_in s.state s i in
    ap (λ q. q.0.socket) (sym (ok_injective g))
    ∙ run_rx-after_uses inputs r.transport t2 (after_uses s us) later next mode rest
    ∙ ap some (sym (after_uses-append us (uses_of (after_uses s us) inputs) s))

-- A receiving thread in block mode begins with a socket whose members hold open descriptors. However
-- many rounds it makes without a fault, and whatever the system answers, if it hands out no descriptor
-- that is open: the socket closes only open descriptors, its members hold open ones at the end, and of
-- the descriptors open then the members hold all but those that were lost before and those that an
-- accept has overwritten.
pub run_rx-Owned :
    (inputs : List RxInput) (t t' : Transport) (s : LinuxSocket) (calls : List (ℕ × Bytes))
    (fds : List ℕ) (lost : ℕ)
    → t.socket ≡ some s
    → t.receive_mode ≡ ReadMode.block
    → run_rx t inputs ≡ ok (t', calls)
    → Owned s.client_sock s.server_sock fds lost
    → Granted (run_uses s (uses_of s inputs)).1 fds
    → (s' : LinuxSocket) × (t'.socket ≡ some s')
      × Fine
          (run_uses s (uses_of s inputs)).1
          s'.client_sock
          s'.server_sock
          fds
          (forgotten s (uses_of s inputs) + lost)
run_rx-Owned inputs t t' s calls fds lost u m e o g = (
  after_uses s (uses_of s inputs),
  run_rx-after_uses inputs t t' s calls u m e,
  run_uses-Owned (uses_of s inputs) s fds lost o g,
)
