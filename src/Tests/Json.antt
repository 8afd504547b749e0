-- ===== src/Tests/Json.antt =====
-- The merge of two concrete objects, and RPC objects.
use protobuf_sandbox.Prelude.{
  ◌≢◌, inr, ℕ, ◌≡◌, refl, inl, true, some, [], arith, Bytes, codes, c_str, str_eq, ok,
}
use protobuf_sandbox.Prelude.Int.{negsuc}
use protobuf_sandbox.Json.Node.{Item, CJson, null, node, cjson_object, size, append, find_first}
use protobuf_sandbox.Json.Library.{blank, number_item, string_item, renamed}
use protobuf_sandbox.Json.Getters.{get_id, get_attribute_value_string, get_attribute_value_double}
use protobuf_sandbox.Json.Setters.Put.{IsObject}
use protobuf_sandbox.Json.Setters.RoundTrip.{SameAt}
use protobuf_sandbox.Json.Merge.{returned, merge_json_objects}
use protobuf_sandbox.Json.Merge.Loop.{HasNames, AllCopyable, Avoids, merge_returns, merge-HasNames}
use protobuf_sandbox.Json.Merge.Values.{merge-double}
use protobuf_sandbox.Json.Rpc.{create_rpc_obj}
use protobuf_sandbox.Json.Rpc.Build.{get_id-create_rpc_obj}
use protobuf_sandbox.Tests.Library.{floats, lib, printer}

abbrev object : Item
object = blank cjson_object

abbrev named : Bytes → ℕ → CJson → CJson
named k d rest = node (renamed k (number_item floats d)) null rest

-- `{"a": 1, "b": 2}` and `{"b": 3, "c": {}}`.
abbrev target : CJson
target = named (codes "a") 1 (named (codes "b") 2 null)

abbrev source : CJson
source = named (codes "b") 3 (node (renamed (codes "c") object) null null)

target-IsObject : IsObject (node object target null)
target-IsObject = (refl, ((codes "a", refl), ((codes "b", refl), tt)))

source-HasNames : HasNames source
source-HasNames = ((98, [], refl), ((99, [], refl), tt))

source-AllCopyable : AllCopyable printer source
source-AllCopyable = (
  record { typed = omega arith; has_text = inl (omega arith); parses = λ k s e. cc },
  (record { typed = omega arith; has_text = inl (omega arith); parses = λ k s e. cc }, tt),
)

source-Avoids : Avoids lib (codes "a") source
unfolding str_eq
source-Avoids = (refl, (refl, tt))

source-size : size source ≡ 2
unfolding size
source-size = refl

merge_returns_example :
    (t : CJson) × (merge_json_objects lib printer 2
        (node object target null)
        (node object source null)
      ≡ ok (returned t true))
    × IsObject t
    × SameAt (codes "a") t (node object target null)
merge_returns_example =
    merge_returns lib printer (codes "a") 2 object object target null source null
      (omega (arith, source-size)) target-IsObject source-HasNames source-AllCopyable source-Avoids

merged :
    (t : CJson) × (merge_json_objects lib printer 2
        (node object target null)
        (node object source null)
      ≡ ok (returned t true))
merged =
    let (t, e, o, s) =
      merge_returns lib printer (codes "a") 2 object object target null source null
        (omega (arith, source-size)) target-IsObject source-HasNames source-AllCopyable
        source-Avoids in
    (t, e)

merge-HasNames_example : HasNames source
merge-HasNames_example =
    merge-HasNames lib printer 2 object object target null source null merged.0 merged.1

get_id-create_rpc_obj_example :
    (get_id (create_rpc_obj lib (codes "stop") (negsuc 0)) ≡ ok (negsuc 0))
    × (get_attribute_value_string (create_rpc_obj lib (codes "stop") (negsuc 0)) (codes "method")
        ≡ ok (some (c_str (codes "stop"))))
get_id-create_rpc_obj_example = get_id-create_rpc_obj lib (codes "stop") (negsuc 0) refl

abbrev b_item : Item
b_item = renamed (codes "b") (number_item floats 3)

abbrev c_chain : CJson
c_chain = node (renamed (codes "c") object) null null

abbrev c_text : Item
c_text = renamed (codes "c") (string_item (codes "new"))

c-Avoids_b : Avoids lib (codes "b") c_chain
unfolding str_eq
c-Avoids_b = (refl, tt)

merge-double_example :
    (t : CJson) × (merge_json_objects lib printer 2
        (node object target null)
        (node object (append null (node b_item null c_chain)) null)
      ≡ ok (returned t true))
    × (get_attribute_value_double t (codes "b") ≡ ok (some 3))
unfolding append
merge-double_example =
    merge-double lib printer 2 object object target null null null b_item null c_chain (codes "b")
      (omega (arith, source-size)) target-IsObject source-HasNames source-AllCopyable c-Avoids_b
      refl refl

abbrev text_front : CJson
text_front = named (codes "b") 3 null

text_HasNames : HasNames (append text_front (node c_text null null))
unfolding append
text_HasNames = ((98, [], refl), ((99, [], refl), tt))

text_AllCopyable : AllCopyable printer (append text_front (node c_text null null))
unfolding append
text_AllCopyable = (
  record { typed = omega arith; has_text = inl (omega arith); parses = λ k s e. cc },
  (record { typed = omega arith; has_text = inr (λ e. cc); parses = λ k s e. cc }, tt),
)

text_size : size (append text_front (node c_text null null)) ≡ 2
unfolding size append
text_size = refl

found_b : lib.get_object_item (node object source null) (codes "b") ≡ node b_item null c_chain
unfolding find_first str_eq
found_b = refl

z-not_empty : codes "z" ≢ []
z-not_empty e = cc
