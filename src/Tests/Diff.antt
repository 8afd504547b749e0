-- ===== src/Tests/Diff.antt =====
-- The differences of concrete objects.
use protobuf_sandbox.Prelude.{
  ℕ, ◌≡◌, ◌≢◌, refl, true, false, some, [], arith, inl, inr, Bytes, codes, ok, str_eq,
}
use protobuf_sandbox.Json.Node.{Item, CJson, null, node, cjson_array, cjson_object, find_first}
use protobuf_sandbox.Json.Library.{blank, number_item, string_item, renamed}
use protobuf_sandbox.Json.Getters.{does_attribute_exist}
use protobuf_sandbox.Json.Diff.{are_same, diff_json_objects}
use protobuf_sandbox.Json.Diff.Self.{IsComparable, IsTidy, diff_json_objects_self}
use protobuf_sandbox.Tests.Library.{floats, lib, float_tests}

abbrev object : Item
object = blank cjson_object

abbrev number : Bytes → ℕ → Item
number name d = renamed name (number_item floats d)

-- `{"a": 4, "o": {"s": "t"}, "l": [5]}`.
abbrev inner : CJson
inner = node (renamed (codes "s") (string_item (codes "t"))) null null

abbrev elements : CJson
elements = node (number_item floats 5) null null

abbrev children : CJson
children = node (number (codes "a") 4) null (
    node (renamed (codes "o") object) inner
      (node (renamed (codes "l") (blank cjson_array)) elements null))

number-IsComparable : (name : Bytes) (d : ℕ) → IsComparable float_tests (number name d)
number-IsComparable name d = record { finite = inr refl; has_text = inl (λ e. ground (arith, e)) }

text-IsComparable : IsComparable float_tests (renamed (codes "s") (string_item (codes "t")))
text-IsComparable = record { finite = inr refl; has_text = inr (λ e. cc) }

blank-IsComparable :
    (name : Bytes) (kind : ℕ) → kind ≢ 4 → IsComparable float_tests (renamed name (blank kind))
blank-IsComparable name kind h = record { finite = inr refl; has_text = inl h }

inner-IsTidy :
    IsTidy lib float_tests
      (node
        (renamed (codes "o") object)
        inner
        (node (renamed (codes "l") (blank cjson_array)) elements null))
      inner
unfolding find_first str_eq
inner-IsTidy =
    (((115, [], refl, refl), text-IsComparable, inr tt, inl (λ e. ground (arith, e)), tt))

children-IsTidy : IsTidy lib float_tests (node object children null) children
unfolding find_first str_eq
children-IsTidy = (
  (97, [], refl, refl),
  number-IsComparable (codes "a") 4,
  inr tt,
  inl (λ e. ground (arith, e)),
  (
    (111, [], refl, refl),
    blank-IsComparable (codes "o") cjson_object (λ e. ground (arith, e)),
    inr (text-IsComparable, tt),
    inr inner-IsTidy,
    (
      (108, [], refl, refl),
      blank-IsComparable (codes "l") cjson_array (λ e. ground (arith, e)),
      inr (record { finite = inr refl; has_text = inl (λ e. ground (arith, e)) }, tt),
      inl (λ e. ground (arith, e)),
      tt,
    ),
  ),
)

diff_json_objects_self_example :
    diff_json_objects lib float_tests 5
      (node object children null)
      (node object children null)
      (node object null null)
    ≡ ok (some (node object null null, true))
diff_json_objects_self_example =
    diff_json_objects_self lib float_tests 5 object children null (node object null null)
      (omega arith) refl children-IsTidy

empty_lacks : does_attribute_exist (node object null null) (codes "a") false ≡ ok false
unfolding does_attribute_exist
empty_lacks = refl

-- `{"a": 4}` beside `{}`.
abbrev other : CJson
other = node (number (codes "a") 9) null null

other_has : does_attribute_exist (node object other null) (codes "a") false ≡ ok true
unfolding does_attribute_exist str_eq
other_has = refl

other_found :
    lib.get_object_item (node object other null) (codes "a") ≡ node (number (codes "a") 9) null null
unfolding find_first str_eq
other_found = refl

differ : are_same float_tests 4 9 ≡ false
unfolding are_same
differ = refl
