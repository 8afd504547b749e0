-- ===== src/Tests/Init.antt =====
-- `init` of the command processor on a concrete configuration.
use protobuf_sandbox.Prelude.{
  ◌≡◌, refl, true, false, none, some, codes, str_eq, ok, map, List, [], ◌∷◌,
}
use protobuf_sandbox.Prelude.Int.{pos}
use protobuf_sandbox.Json.Node.{CJson, null, node, cjson_object, find_first}
use protobuf_sandbox.Json.Library.{blank, number_item, string_item, renamed}
use protobuf_sandbox.Json.Getters.{
  get_attribute_value_int, get_attribute_value_string, get_attribute_value_bool, search_for,
  find_item, place,
}
use protobuf_sandbox.Socket.Types.{Mode, State}
use protobuf_sandbox.Socket.{LinuxSocket, Opening, new_socket}
use protobuf_sandbox.Transport.{new_transport, use_socket, register_recv_callback, start_comm}
use protobuf_sandbox.Command.{
  Processor, new_processor, init, start, init_at, init_with, check_img_engine,
}
use protobuf_sandbox.Command.Threads.{Move, take, answer_it, send_it, receive, push}
use protobuf_sandbox.Command.Threads.Served.{IsServed}
use protobuf_sandbox.Command.Threads.Session.{session-IsServed}
use protobuf_sandbox.Transport.Framing.{cut}
use protobuf_sandbox.Transport.Receive.{block_input, texts}
use protobuf_sandbox.Tests.Stream.{input}
use protobuf_sandbox.Tests.Library.{floats, lib, protobuf}

abbrev engine : CJson
engine = node (renamed (codes "imgEng_type") (string_item (codes "fake"))) null null

-- `{"ipAddress": "127.0.0.1", "port": 8080, "imgEngine": {"imgEng_type": "fake"}}`.
abbrev pub config_items : CJson
config_items = node (renamed (codes "ipAddress") (string_item (codes "127.0.0.1"))) null (
    node (renamed (codes "port") (number_item floats 8080)) null
      (node (renamed (codes "imgEngine") (blank cjson_object)) engine null))

abbrev config : CJson
config = node (blank cjson_object) config_items null

abbrev pub opened : Opening
opened = record {
  fd = some 3;
  binds = true;
  listens = true;
  connecting = record { fd = none; option_set = false; connects = false };
}

abbrev server : LinuxSocket
server = record {
  mode = Mode.server;
  state = State.server_port_setup;
  ip_address = codes "127.0.0.1";
  port = pos 8080;
  server_sock = some 3;
  client_sock = none;
  has_callback = false;
}

abbrev pub ready : Processor
ready = record new_processor {
  socket = some server;
  transport = some (register_recv_callback (use_socket new_transport server).0 true).0;
}

init_succeeds : init lib config opened new_processor ≡ ok (ready, true)
unfolding init init_at init_with check_img_engine get_attribute_value_int get_attribute_value_string
    get_attribute_value_bool search_for find_item find_first place str_eq new_processor new_socket
    protobuf_sandbox.Socket.init
init_succeeds = refl

-- Both threads are created.
abbrev running : Processor
running = record ready {
  transport = some (record (register_recv_callback (use_socket new_transport server).0 true).0 {
    rx_done = false;
    comm_started = true;
  });
  done = false;
  has_thread = true;
  running = true;
}

start_succeeds : start ready true true ≡ ok (running, true)
unfolding start start_comm use_socket register_recv_callback new_transport
start_succeeds = refl

-- A client comes, and sends two lines in two blocks; the first is answered in between.
abbrev session : List Move
session =
    receive (record input { accepted = some 5 })
    ∷ receive (block_input input (113, 10 ∷ 115 ∷ []))
    ∷ push
    ∷ take
    ∷ answer_it
    ∷ receive (block_input input (10, []))
    ∷ send_it true
    ∷ take
    ∷ []

session-IsServed_example :
    IsServed protobuf none
      (map protobuf.parse (cut [] (texts ((113, 10 ∷ 115 ∷ []) ∷ (10, []) ∷ []))).0)
      session
      running
session-IsServed_example =
    session-IsServed lib protobuf config opened ready running input 5
      ((113, 10 ∷ 115 ∷ []) ∷ (10, []) ∷ []) session init_succeeds start_succeeds refl
