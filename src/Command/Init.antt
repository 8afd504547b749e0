-- ===== src/Command/Init.antt =====
-- What `init` leaves where it returns true.
use protobuf_sandbox.Prelude.{
  ◌≡◌, refl, Bool, true, false, none, some, arith, [], Option-cases, inl, inr, Bytes, codes, ok,
  >>=_through, subst, ok_injective,
}
use protobuf_sandbox.Prelude.Int.{ℤ}
use protobuf_sandbox.Json.Node.{CJson}
use protobuf_sandbox.Json.Library.{CJsonLib}
use protobuf_sandbox.Json.Getters.{
  get_attribute_value_string, get_attribute_value_int, get_attribute_value_bool,
}
use protobuf_sandbox.Socket.Types.{Mode, State}
use protobuf_sandbox.Socket.{LinuxSocket, Opening, new_socket}
use protobuf_sandbox.Socket
use protobuf_sandbox.Transport.{
  Transport, ReadMode, new_transport, use_socket, register_recv_callback,
}
use protobuf_sandbox.Command.{Processor, init, init_at, init_with, check_img_engine}

-- The socket is a server's, which has a descriptor to listen on and waits for a client.
pub record IsListening (s : LinuxSocket) : Type 0 where
  pub mode : s.mode ≡ Mode.server
  pub state : s.state ≡ State.server_port_setup
  pub listens : (fd : _) × (s.server_sock ≡ some fd)

-- The processor has a transport over such a socket, which calls it back and is not started yet.
pub record IsReady (p : Processor) : Type 0 where
  pub transport : Transport
  pub socket : LinuxSocket
  pub has_transport : p.transport ≡ some transport
  pub has_socket : transport.socket ≡ some socket
  pub listening : IsListening socket
  pub calls_back : transport.has_callback ≡ true
  pub empty_buffer : transport.cmd_buffer ≡ []
  pub reads_blocks : transport.receive_mode ≡ ReadMode.block
  pub not_started : transport.comm_started ≡ false

init-IsListening :
    (ip : Bytes) (port : ℤ) (a : Opening)
    → (Socket.init new_socket Mode.server ip port a).1 ≡ true
    → IsListening (Socket.init new_socket Mode.server ip port a).0
unfolding Socket.init
init-IsListening ip port a h = elim (Option-cases a.fd) [
  | inl z ↦ cc (rw z at h)
  | inr (fd, z) ↦ record { mode = ground arith; state = ground arith; listens = (fd, ground arith) }
]

init_with-IsReady :
    (lib : CJsonLib) (config : CJson) (p : Processor) (r : LinuxSocket × Bool) (q : Processor)
    → (r.1 ≡ true → IsListening r.0)
    → init_with lib config p r ≡ ok (q, true)
    → IsReady q
unfolding init_with use_socket register_recv_callback new_transport
init_with-IsReady lib config p (s, false) q l e = cc
init_with-IsReady lib config p (s, true) q l e =
    let (good, found, f) = >>=_through _ (check_img_engine lib config) e in
    let t = (register_recv_callback (use_socket new_transport s).0 true).0 in
    let made : record p { socket = some s; transport = some t } ≡ q = cc in
    subst IsReady made (record {
      transport = t;
      socket = s;
      has_transport = refl;
      has_socket = refl;
      listening = l refl;
      calls_back = refl;
      empty_buffer = refl;
      reads_blocks = refl;
      not_started = refl;
    })

init_at-IsReady :
    (lib : CJsonLib) (config : CJson) (a : Opening) (p : Processor) (ip : Bytes) (port : ℤ)
    (q : Processor)
    → init_at lib config a p ip port ≡ ok (q, true)
    → IsReady q
unfolding init_at
init_at-IsReady lib config a p ip port q e =
    let (quits, found, f) =
      >>=_through _ (get_attribute_value_bool config (codes "exit_on_quit")) e in
    init_with-IsReady lib config
      (record p { exit_on_quit = elim quits [ none ↦ true | some b ↦ b ] })
      (Socket.init new_socket Mode.server ip port a) q (init-IsListening ip port a) f

-- Where `init` returns true, the processor has a transport that is not started, reads blocks and calls it
-- back, over the socket of a server that has a descriptor to listen on and waits for a client.
pub init-IsReady :
    (lib : CJsonLib) (config : CJson) (a : Opening) (p q : Processor)
    → init lib config a p ≡ ok (q, true)
    → IsReady q
unfolding init
init-IsReady lib config a p q e =
    let (ip, found, f) = >>=_through _ (get_attribute_value_string config (codes "ipAddress")) e in
    elim (Option-cases ip) [
      | inl z ↦ cc (rw z at f)
      | inr (address, z) ↦
          let (port, there, g) =
            >>=_through _ (get_attribute_value_int config (codes "port")) (rw z at f) in
          elim (Option-cases port) [
            | inl y ↦ cc (rw y at g)
            | inr (n, y) ↦ init_at-IsReady lib config a p address n q (rw y at g)
          ]
    ]

abbrev pub IsUntouched : Processor → Processor → Type 0
IsUntouched p q =
    (q.cmd_fifo ≡ p.cmd_fifo)
    × (q.latest_result ≡ p.latest_result)
    × (q.response ≡ p.response)
    × (q.has_thread ≡ p.has_thread)

init_with-IsUntouched :
    (lib : CJsonLib) (config : CJson) (p : Processor) (r : LinuxSocket × Bool) (q : Processor)
    (b : Bool)
    → init_with lib config p r ≡ ok (q, b)
    → IsUntouched p q
unfolding init_with
init_with-IsUntouched lib config p (s, false) q b e = (cc, cc, cc, cc)
init_with-IsUntouched lib config p (s, true) q b e =
    let (good, found, f) = >>=_through _ (check_img_engine lib config) e in (cc, cc, cc, cc)

init_at-IsUntouched :
    (lib : CJsonLib) (config : CJson) (a : Opening) (p : Processor) (ip : Bytes) (port : ℤ)
    (q : Processor) (b : Bool)
    → init_at lib config a p ip port ≡ ok (q, b)
    → IsUntouched p q
unfolding init_at
init_at-IsUntouched lib config a p ip port q b e =
    let (quits, found, f) =
      >>=_through _ (get_attribute_value_bool config (codes "exit_on_quit")) e in
    init_with-IsUntouched lib config
      (record p { exit_on_quit = elim quits [ none ↦ true | some v ↦ v ] })
      (Socket.init new_socket Mode.server ip port a) q b f

-- `init` does not touch the queue, the latest result, the response and the worker's thread.
pub init-IsUntouched :
    (lib : CJsonLib) (config : CJson) (a : Opening) (p q : Processor) (b : Bool)
    → init lib config a p ≡ ok (q, b)
    → IsUntouched p q
unfolding init
init-IsUntouched lib config a p q b e =
    let (ip, found, f) = >>=_through _ (get_attribute_value_string config (codes "ipAddress")) e in
    elim (Option-cases ip) [
      | inl z ↦ let same = ok_injective (rw z at f) in (cc, cc, cc, cc)
      | inr (address, z) ↦
          let (port, there, g) =
            >>=_through _ (get_attribute_value_int config (codes "port")) (rw z at f) in
          elim (Option-cases port) [
            | inl y ↦ let same = ok_injective (rw y at g) in (cc, cc, cc, cc)
            | inr (n, y) ↦ init_at-IsUntouched lib config a p address n q b (rw y at g)
          ]
    ]
