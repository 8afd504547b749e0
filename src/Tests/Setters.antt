-- ===== src/Tests/Setters.antt =====
-- The getters and setters on a concrete object.
use protobuf_sandbox.Prelude.{
  ◌≡◌, ◌≢◌, refl, inr, true, false, none, some, [], Bytes, codes, c_str, str_eq, ok, fault,
}
use protobuf_sandbox.Prelude.Int.{pos}
use protobuf_sandbox.Json.Node.{Item, CJson, null, node, cjson_object, find_first}
use protobuf_sandbox.Json.Library.{blank, number_item, string_item, renamed}
use protobuf_sandbox.Json.Getters.{
  get_attribute_value_int, get_attribute_value_double, get_attribute_value_bool,
  does_attribute_exist, find_item, exists_in, place, search_for,
}
use protobuf_sandbox.Json.Setters.{
  set_attribute_value_int, set_attribute_value_double, set_attribute_value_bool,
}
use protobuf_sandbox.Json.Setters.Put.{IsObject}
use protobuf_sandbox.Json.Setters.RoundTrip.{
  SameAt, get_double-set_double, get_string-set_string, set_double-others,
}
use protobuf_sandbox.Json.Setters.Int.{set_int_fault}
use protobuf_sandbox.Json.Setters.Truth.{get_bool-set_bool, set_bool-lost}
use protobuf_sandbox.Tests.Library.{floats, lib}

abbrev a : Bytes
a = codes "a"

abbrev b : Bytes
b = codes "b"

abbrev a_item : Item
a_item = renamed a (number_item floats 7)

abbrev b_chain : CJson
b_chain = node (renamed b (string_item (codes "text"))) null null

abbrev object : Item
object = blank cjson_object

-- `{"a": 7, "b": "text"}`.
abbrev example : CJson
example = node object (node a_item null b_chain) null

example-IsObject : IsObject example
example-IsObject = (refl, ((a, refl), ((b, refl), tt)))

a-c_str : c_str a ≡ a
unfolding c_str
a-c_str = refl

z-c_str : c_str (codes "z") ≡ codes "z"
unfolding c_str
z-c_str = refl

differs : lib.same b a ≡ false
unfolding str_eq
differs = refl

get_double-set_double_example :
    (q : CJson) × (set_attribute_value_double lib example a 9 ≡ ok (q, true))
    × IsObject q
    × (get_attribute_value_double q a ≡ ok (some 9))
get_double-set_double_example = get_double-set_double lib example a 9 example-IsObject a-c_str

abbrev after_double : CJson
after_double = (get_double-set_double lib example a 9 example-IsObject a-c_str).0

set_double-others_example : SameAt b after_double example
set_double-others_example =
    set_double-others lib example a 9 b after_double example-IsObject a-c_str differs
      (get_double-set_double lib example a 9 example-IsObject a-c_str).1

abbrev after_string : CJson
after_string = (get_string-set_string lib example a (codes "z") example-IsObject a-c_str z-c_str).0

found_first : lib.get_object_item example a ≡ node a_item null b_chain
unfolding find_first str_eq
found_first = refl

set_int_fault_example : set_attribute_value_int lib example a (pos 8) ≡ fault
set_int_fault_example =
    set_int_fault lib object (node a_item null b_chain) null a (pos 8) a_item null b_chain
      example-IsObject found_first refl refl

no_z : get_attribute_value_int example (codes "z") ≡ ok none
unfolding get_attribute_value_int search_for find_item place str_eq
no_z = refl

z-not_empty : codes "z" ≢ []
z-not_empty e = cc

a-not_empty : a ≢ []
a-not_empty e = cc

z_is_new : does_attribute_exist example (codes "z") false ≡ ok false
unfolding does_attribute_exist exists_in str_eq
z_is_new = refl

a_is_there : does_attribute_exist example a false ≡ ok true
unfolding does_attribute_exist exists_in str_eq
a_is_there = refl

a_is_no_truth : get_attribute_value_bool example a ≡ ok none
unfolding get_attribute_value_bool search_for find_item place str_eq
a_is_no_truth = refl

get_bool-set_bool_example :
    (q : CJson) × (set_attribute_value_bool lib example (codes "z") false ≡ ok (q, true))
    × IsObject q
    × (get_attribute_value_bool q (codes "z") ≡ ok (some false))
get_bool-set_bool_example =
    get_bool-set_bool lib example (codes "z") false example-IsObject z-c_str z-not_empty
      (inr z_is_new)

set_bool-lost_example :
    (q : CJson) × (set_attribute_value_bool lib example a true ≡ ok (q, true))
    × (get_attribute_value_bool q a ≡ ok none)
set_bool-lost_example =
    set_bool-lost lib example a true example-IsObject a-c_str a-not_empty a_is_there a_is_no_truth
