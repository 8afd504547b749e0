-- ===== src/Tests/Keys.antt =====
-- `getKey` and the conversion of maps on concrete objects.
use protobuf_sandbox.Prelude.{
  ◌≡◌, ◌≢◌, ◌⊎◌, refl, true, false, some, List, [], ◌∷◌, ◌++◌, Bytes, codes, c_str, str_eq, ok, All,
}
use protobuf_sandbox.Json.Node.{Double, Item, CJson, null, node, cjson_object}
use protobuf_sandbox.Json.Library.{blank, number_item, renamed}
use protobuf_sandbox.Json.Getters.{does_attribute_exist}
use protobuf_sandbox.Json.Setters.Put.{IsObject}
use protobuf_sandbox.Json.Access.{get_key, walk_to, as_double, value, throw}
use protobuf_sandbox.Json.Access.Keys.{get_key-does_attribute_exist}
use protobuf_sandbox.Json.Convert.{string_keys, map_to_json_str_double, json_to_map_str_double}
use protobuf_sandbox.Json.Convert.RoundTrip.{HasNewKeys, IsText, json_to_map-map_to_json}
use protobuf_sandbox.Tests.Library.{floats, lib}

abbrev a_chain : CJson
a_chain = node (renamed (codes "a") (number_item floats 7)) null null

-- `{"a": 7}`.
abbrev example : CJson
example = node (blank cjson_object) a_chain null

example-IsObject : IsObject example
example-IsObject = (refl, ((codes "a", refl), tt))

a-not_empty : codes "a" ≢ []
a-not_empty e = cc

get_key-does_attribute_exist_example :
    ((does_attribute_exist example (codes "a") false ≡ ok true)
      × (x : Item) × (kids : CJson) × (rest : CJson) × (get_key example (codes "a")
          ≡ ok (value (node x kids rest)))
      × (x.name ≡ some (codes "a")))
    ⊎ ((does_attribute_exist example (codes "a") false ≡ ok false)
        × (get_key example (codes "a")
            ≡ ok (throw example (codes "key " ++ codes "a" ++ codes " not found"))))
get_key-does_attribute_exist_example =
    get_key-does_attribute_exist example (codes "a") example-IsObject a-not_empty

key_found : get_key example (codes "a") ≡ ok (value a_chain)
unfolding get_key walk_to str_eq
key_found = refl

seven : as_double a_chain ≡ ok (value 7)
unfolding as_double
seven = refl

abbrev pairs : List (Bytes × Double)
pairs = (codes "a", 1) ∷ (codes "b", 2) ∷ []

abbrev old_pairs : List (Bytes × Double)
old_pairs = (codes "c", 3) ∷ []

pairs-HasNewKeys : HasNewKeys string_keys old_pairs pairs
unfolding str_eq
pairs-HasNewKeys = (refl, (refl, tt))

pairs_are_texts : All IsText pairs
unfolding c_str
pairs_are_texts = (refl, (refl, tt))

json_to_map-map_to_json_example :
    json_to_map_str_double (map_to_json_str_double lib pairs).0 old_pairs
    ≡ ok (old_pairs ++ pairs, true)
json_to_map-map_to_json_example =
    json_to_map-map_to_json lib pairs old_pairs pairs-HasNewKeys pairs_are_texts
