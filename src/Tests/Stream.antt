-- ===== src/Tests/Stream.antt =====
-- Bytes that arrive and end as commands in the queue, and arrays of numbers.
use protobuf_sandbox.Prelude.{
  ℕ, ◌≡◌, refl, some, none, true, false, List, [], ◌∷◌, Bytes, codes, take, str_eq, ok,
}
use protobuf_sandbox.Prelude.Int.{pos}
use protobuf_sandbox.Json.Node.{Item, CJson, null, node, cjson_array, cjson_object, find_first}
use protobuf_sandbox.Json.Library.{blank, number_item, renamed}
use protobuf_sandbox.Json.Getters.{get_attribute_value_int_array}
use protobuf_sandbox.Json.Getters.Arrays.{ints, get_int_array-take}
use protobuf_sandbox.Json.Setters.Put.{IsObject}
use protobuf_sandbox.Socket.Types.{Mode, State}
use protobuf_sandbox.Socket.{LinuxSocket, Received}
use protobuf_sandbox.Transport.{Transport, RxInput, new_transport}
use protobuf_sandbox.Transport.Receive.{IsReceiving}
use protobuf_sandbox.Tests.Library.{floats, lib}

abbrev pub server : LinuxSocket
server = record {
  mode = Mode.server;
  state = State.connected;
  ip_address = [];
  port = pos 8080;
  server_sock = some 3;
  client_sock = some 5;
  has_callback = false;
}

abbrev pub transport : Transport
transport = record new_transport { socket = some server; cmd_buffer = []; has_callback = true }

abbrev pub input : RxInput
input = record {
  connecting = record { fd = none; option_set = false; connects = false };
  accepted = none;
  received = Received.would_block;
  line = record { text = []; num_read = pos 0; state = State.connected; ret = true };
}

abbrev pub blocks : List (ℕ × Bytes)
blocks = (113, 10 ∷ 115 ∷ []) ∷ (116, 10 ∷ []) ∷ []

pub transport-IsReceiving : IsReceiving transport server 5
unfolding new_transport
transport-IsReceiving = record {
  uses = refl;
  connected = refl;
  reads_from = refl;
  blocks = refl;
  calls_back = refl;
}

abbrev object : Item
object = blank cjson_object

abbrev array : Item
array = renamed (codes "a") (blank cjson_array)

abbrev elements : CJson
elements =
    node (number_item floats 4) null
      (node (number_item floats 5) null (node (number_item floats 6) null null))

array-IsObject : IsObject (node object (node array elements null) null)
array-IsObject = (refl, ((codes "a", refl), tt))

array_found :
    lib.get_object_item (node object (node array elements null) null) (codes "a")
    ≡ node array elements null
unfolding find_first str_eq
array_found = refl

get_int_array-take_example :
    get_attribute_value_int_array lib (node object (node array elements null) null) (codes "a") 2
    ≡ ok (some (take 2 (ints elements)))
get_int_array-take_example =
    get_int_array-take lib object (node array elements null) null (codes "a") 2 array elements null
      array-IsObject array_found refl refl
