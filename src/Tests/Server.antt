-- ===== src/Tests/Server.antt =====
-- Concrete runs of the server.
use protobuf_sandbox.Prelude.{
  ◌≡◌, refl, true, false, some, none, [], ◌∷◌, Bytes, codes, contains, starts_with, str_eq, c_str,
  ok, fault, Run, List,
}
use protobuf_sandbox.Json.Node.{CJson, null, node, cjson_object, find_first}
use protobuf_sandbox.Json.Library.{blank, renamed}
use protobuf_sandbox.Json.Getters.{
  get_attribute_value_int, get_attribute_value_string, get_attribute_value_bool, search_for,
  find_item, place,
}
use protobuf_sandbox.Json.Files.{File, parsed, read_json_from_file}
use protobuf_sandbox.Prelude.Int.{pos}
use protobuf_sandbox.Socket.{new_socket, close_connection, send_data}
use protobuf_sandbox.Transport.{
  new_transport, use_socket, register_recv_callback, start_comm, stop_comm,
}
use protobuf_sandbox.Command.Messages.{Command}
use protobuf_sandbox.Command.{
  Processor, new_processor, start, do_work, answer, shutdown, init, init_at, init_with,
  check_img_engine,
}
use protobuf_sandbox.Server.{Exit, status_zero, World, server_main}
use protobuf_sandbox.Server.Ending.{CameThrough, server_main-CameThrough, server_main-idle}
use protobuf_sandbox.Tests.Library.{lib, protobuf}
use protobuf_sandbox.Tests.Init.{config_items, opened, ready}

-- `{"CommandProcessor": …}`.
abbrev section_item : CJson
section_item = node (renamed (codes "CommandProcessor") (blank cjson_object)) config_items null

abbrev settings : CJson
settings = node (blank cjson_object) section_item null

abbrev file : File
file = record {
  mode = some (record { others = false; group = false; owner = true });
  content = some (codes "{}");
}

-- The program with a `quit` that arrives before the first round, and with no command.
abbrev world : List Command → World
world cmds = record {
  argument = some file;
  beyond = [];
  opening = opened;
  comm_spawns = true;
  spawns = true;
  rounds = record { queued = cmds; sends = true } ∷ [];
}

abbrev quit : Command
quit = record { id = pos 9; method = codes "quit" }

abbrev ending : Run Exit → Processor
ending (ok (status_zero p)) = p
ending _ = new_processor

abbrev parse : Bytes → CJson
parse s = settings

abbrev last : Processor
last = ending (server_main lib protobuf parse (world (quit ∷ [])))

runs_down : server_main lib protobuf parse (world (quit ∷ [])) ≡ ok (status_zero last)
unfolding server_main read_json_from_file get_attribute_value_bool str_eq init
    get_attribute_value_string find_first get_attribute_value_int protobuf_sandbox.Socket.init start
    start_comm register_recv_callback use_socket new_transport do_work new_processor contains
    shutdown answer check_img_engine find_item place search_for c_str starts_with close_connection
    new_socket send_data stop_comm
runs_down = refl

server_main-CameThrough_example : CameThrough lib parse (world (quit ∷ [])) last
server_main-CameThrough_example =
    server_main-CameThrough lib protobuf parse (world (quit ∷ [])) last runs_down

file_reads : read_json_from_file parse file [] ≡ parsed settings true
unfolding read_json_from_file
file_reads = refl

no_debug : get_attribute_value_bool settings (codes "debug") ≡ ok none
unfolding get_attribute_value_bool search_for find_item find_first place str_eq
no_debug = refl

init_returns :
    init lib (lib.get_object_item settings (codes "CommandProcessor")) opened new_processor
    ≡ ok (ready, true)
unfolding init init_at init_with check_img_engine get_attribute_value_int get_attribute_value_string
    get_attribute_value_bool search_for find_item find_first place str_eq new_processor new_socket
    protobuf_sandbox.Socket.init
init_returns = refl

server_main-idle_example : server_main lib protobuf parse (world []) ≡ fault
server_main-idle_example =
    server_main-idle lib protobuf parse (world []) file settings none ready
      (record { queued = []; sends = true }) [] refl file_reads no_debug init_returns refl refl refl
      refl
