-- ===== src/Socket/Descriptors/Uses.antt =====
-- What every use of a socket keeps of its descriptors.
use protobuf_sandbox.Prelude.{
  ℕ, ◌+◌, ◌≡◌, refl, sym, Bool, true, false, Option, none, some, List, [], ◌∷◌, ◌++◌, arith,
  if◌then◌else◌, subst,
}
use protobuf_sandbox.Socket.Types.{Mode}
use protobuf_sandbox.Socket.{
  LinuxSocket, Connecting, Opening, reconnect, connect_as_client, init_as, init, listen_in,
  listen_for_client, reset_in, reset_connection, close_connection,
}
use protobuf_sandbox.Socket.Descriptors.{
  Call, close_if, reconnect_calls, init_calls, listen_calls, reset_calls, close_calls, Use,
  initialize, listen, reset, close, after_use, calls_of, run_uses, Granted, one, forgets, forgotten,
  after_calls,
}
use protobuf_sandbox.Socket.Descriptors.Owned.{
  Owned, close_client, close_server, open_client, open_server, forget_client, forget_server, Fine,
  Granted-append, Fine-append, open_close,
}

-- The member behind `socket` and `setsockopt`.
abbrev new_client : Option ℕ → Bool → Option ℕ
new_client none set = none
new_client (some fd) set = if set then some fd else none

module _ (fds : List ℕ) (lost : ℕ) where
  new_client-Owned :
      (fd v : Option ℕ) (set : Bool)
      → Owned none v fds lost
      → Granted
          (elim fd [
            | none ↦ []
            | some n ↦ Call.opened n ∷ (if set then [] else Call.closed n ∷ [])
          ])
          fds
      → Fine
          (elim fd [
            | none ↦ []
            | some n ↦ Call.opened n ∷ (if set then [] else Call.closed n ∷ [])
          ])
          (new_client fd set)
          v
          fds
          lost
  new_client-Owned none v set o g = (tt, o)
  new_client-Owned (some n) v true o (h, g) = (tt, open_client fds lost n v h o)
  new_client-Owned (some n) v false o (h, g) = open_close n none v fds lost o

-- The member behind `socket`, `bind` and `listen`.
abbrev new_server : Option ℕ → Bool → Bool → Option ℕ
new_server none binds listens = none
new_server (some fd) binds listens = if binds then if listens then some fd else none else some fd

reconnect-Owned :
    (s : LinuxSocket) (a : Connecting) (fds : List ℕ) (lost : ℕ)
    → Owned s.client_sock s.server_sock fds lost
    → Granted (reconnect_calls s a) fds
    → Fine (reconnect_calls s a) (new_client a.fd a.option_set) s.server_sock fds lost
unfolding reconnect_calls
reconnect-Owned s a fds lost o g =
    let (shut, rest) = close_client fds lost s.client_sock s.server_sock o in
    let (g1, g2) = Granted-append (close_if s.client_sock) _ fds g in
    Fine-append (close_if s.client_sock) _ _ _ fds lost shut (
      new_client-Owned (after_calls (close_if s.client_sock) fds) lost a.fd s.server_sock
        a.option_set rest g2)

-- What holds behind a use of a socket, with `lost` descriptors in front of it that no member holds.
abbrev pub Keeps : LinuxSocket → List Call → LinuxSocket → List ℕ → ℕ → ℕ → Type 0
Keeps s calls s' fds lost later =
    Owned s.client_sock s.server_sock fds lost
    → Granted calls fds
    → Fine calls s'.client_sock s'.server_sock fds later

Fine-same :
    (calls : List Call) (fds : List ℕ) {c c' v v' : Option ℕ} {m n : ℕ}
    → c' ≡ c
    → v' ≡ v
    → n ≡ m
    → Fine calls c v fds m
    → Fine calls c' v' fds n
Fine-same calls fds {c} {c'} {v} {v'} {m} {n} p q r h =
    subst (λ x. Fine calls x v' fds n) (sym p)
      (subst (λ y. Fine calls c y fds n) (sym q) (subst (λ k. Fine calls c v fds k) (sym r) h))

connect-Owned :
    (s : LinuxSocket) (a : Connecting) (fds : List ℕ) (lost : ℕ)
    → Keeps s (reconnect_calls s a) (connect_as_client (reconnect s a)).0 fds lost lost
unfolding connect_as_client reconnect
connect-Owned s a fds lost o g =
    Fine-same (reconnect_calls s a) fds (ground arith) (ground arith) refl
      (reconnect-Owned s a fds lost o g)

module _ (fds : List ℕ) (lost : ℕ) (c : Option ℕ) where
  new_server-Owned :
      (fd : Option ℕ) (binds listens : Bool)
      → Owned c none fds lost
      → Granted
          (elim fd [
            | none ↦ []
            | some n ↦
                Call.opened n ∷ (if binds then if listens then [] else Call.closed n ∷ [] else [])
          ])
          fds
      → Fine
          (elim fd [
            | none ↦ []
            | some n ↦
                Call.opened n ∷ (if binds then if listens then [] else Call.closed n ∷ [] else [])
          ])
          c
          (new_server fd binds listens)
          fds
          lost
  new_server-Owned none binds listens o g = (tt, o)
  new_server-Owned (some n) false listens o (h, g) = (tt, open_server fds lost n c h o)
  new_server-Owned (some n) true true o (h, g) = (tt, open_server fds lost n c h o)
  new_server-Owned (some n) true false o (h, g) = open_close n c none fds lost o

init_as-Owned :
    (mode : Mode) (s : LinuxSocket) (a : Opening) (fds : List ℕ) (lost : ℕ)
    → Keeps s
        (init_calls mode s a)
        (init_as mode s a).0
        fds
        lost
        (elim mode [ Mode.server ↦ one s.server_sock | Mode.client ↦ 0 ] + lost)
unfolding init_calls init_as
init_as-Owned Mode.server s a fds lost o g =
    Fine-same (init_calls Mode.server s a) fds (ground arith) (ground arith) refl (
      new_server-Owned fds (one s.server_sock + lost) s.client_sock a.fd a.binds a.listens
        (forget_server fds lost s.client_sock s.server_sock o) g)
init_as-Owned Mode.client s a fds lost o g =
    Fine-same (reconnect_calls s a.connecting) fds refl refl (omega arith)
      (connect-Owned s a.connecting fds lost o g)

listen_in-Owned :
    (mode : Mode) (v : Option ℕ) (s : LinuxSocket) (accepted : Option ℕ) (fds : List ℕ) (lost : ℕ)
    → s.server_sock ≡ v
    → Keeps s (listen_calls mode v accepted) (listen_in mode v s accepted).0 fds lost (
        elim mode [
          | Mode.server ↦ elim v [ none ↦ 0 | some fd ↦ one s.client_sock ]
          | Mode.client ↦ 0
        ]
        + lost)
unfolding listen_calls listen_in
listen_in-Owned Mode.client v s accepted fds lost e o g =
    Fine-same [] fds refl refl (omega arith) (tt, o)
listen_in-Owned Mode.server none s accepted fds lost e o g =
    Fine-same [] fds refl refl (omega arith) (tt, o)
listen_in-Owned Mode.server (some n) s none fds lost e o g =
    (tt, forget_client fds lost s.client_sock s.server_sock o)
listen_in-Owned Mode.server (some n) s (some fd) fds lost e o (h, g) = (
  tt,
  open_client fds (one s.client_sock + lost) fd s.server_sock h
      (forget_client fds lost s.client_sock s.server_sock o),
)

reset_in-Owned :
    (mode : Mode) (s : LinuxSocket) (a : Connecting) (fds : List ℕ) (lost : ℕ)
    → Keeps s (reset_calls mode s a) (reset_in mode s a).0 fds lost lost
unfolding reset_calls reset_in
reset_in-Owned Mode.client s a fds lost o g = connect-Owned s a fds lost o g
reset_in-Owned Mode.server s a fds lost o g =
    Fine-same [] fds (ground arith) (ground arith) refl (tt, o)

pub close-Owned :
    (s : LinuxSocket) (fds : List ℕ) (lost : ℕ)
    → Owned s.client_sock s.server_sock fds lost
    → Fine (close_calls s) none none fds lost
unfolding close_calls
close-Owned s fds lost o =
    let (shut, rest) = close_client fds lost s.client_sock s.server_sock o in
    let behind = after_calls (close_if s.client_sock) fds in
    Fine-append (close_if s.client_sock) _ _ _ fds lost shut
      (close_server behind lost s.server_sock rest)

use-Owned :
    (s : LinuxSocket) (u : Use) (fds : List ℕ) (lost : ℕ)
    → Keeps s (calls_of s u) (after_use s u) fds lost (forgets s u + lost)
unfolding calls_of after_use init listen_for_client reset_connection close_connection
use-Owned s (initialize Mode.server ip port a) fds lost o g =
    init_as-Owned Mode.server (record s { mode = Mode.server; ip_address = ip; port = port }) a fds
      lost o g
use-Owned s (initialize Mode.client ip port a) fds lost o g =
    init_as-Owned Mode.client (record s { mode = Mode.client; ip_address = ip; port = port }) a fds
      lost o g
use-Owned s (listen accepted) fds lost o g =
    listen_in-Owned s.mode s.server_sock s accepted fds lost refl o g
use-Owned s (reset a) fds lost o g =
    Fine-same (reset_calls s.mode s a) fds refl refl (omega arith)
      (reset_in-Owned s.mode s a fds lost o g)
use-Owned s close fds lost o g =
    Fine-same (close_calls s) fds refl refl (omega arith) (close-Owned s fds lost o)

pub run_uses-Owned :
    (us : List Use) (s : LinuxSocket) (fds : List ℕ) (lost : ℕ)
    → Keeps s (run_uses s us).1 (run_uses s us).0 fds lost (forgotten s us + lost)
unfolding run_uses
run_uses-Owned [] s fds lost o g = Fine-same [] fds refl refl (omega arith) (tt, o)
run_uses-Owned (u ∷ us) s fds lost o g =
    let (g1, g2) = Granted-append (calls_of s u) (run_uses (after_use s u) us).1 fds g in
    let (shut, owned) = use-Owned s u fds lost o g1 in
    let rest =
      run_uses-Owned us (after_use s u) (after_calls (calls_of s u) fds) (forgets s u + lost) owned
        g2 in
    Fine-same (calls_of s u ++ (run_uses (after_use s u) us).1) fds refl refl (omega arith)
      (Fine-append (calls_of s u) (run_uses (after_use s u) us).1 _ _ fds _ shut rest)
