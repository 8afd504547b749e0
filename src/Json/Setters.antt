-- ===== src/Json/Setters.antt =====
-- The writers of src/CNT_JSON.c: `setAttributeValue_*` and `incrAttributeValue_*`. The result holds
-- the object as the call leaves it, and the value returned.
pub mod Chains
pub mod Put
pub mod RoundTrip
pub mod Stores
pub mod Truth
pub mod Int
use protobuf_sandbox.Prelude.{
  ℕ, Bool, true, false, none, some, ◌==◌, if◌then◌else◌, Bytes, c_str, Run, ok, fault, ◌>>=◌,
}
use protobuf_sandbox.Prelude.Int.{ℤ, ◌+ℤ◌, fits_int}
use protobuf_sandbox.Json.Node.{
  Double, Item, CJson, null, node, cjson_true, cjson_false, cjson_number, cjson_string, is_kind,
  is_bool, position, edit,
}
use protobuf_sandbox.Json.Library.{CJsonLib, has_name}
use protobuf_sandbox.Json.Getters.{
  Place, place, search_for, get_attribute_value_int, get_attribute_value_double,
}

-- A store through `subitem`, at an index of the chain in which the loop found it.
abbrev pub edit_at : Place → ℕ → (Item → Item) → CJson → CJson
edit_at p i f null = null
edit_at Place.self i f (node it c n) = edit i f (node it c n)
edit_at Place.below i f (node it c n) = node it (edit i f c) n
edit_at Place.beside i f (node it c n) = node it c (edit i f n)

abbrev pub place_of : (Item → Bool) → CJson → Place
place_of own null = Place.self
place_of own (node it c n) = place own it

-- `cJSON_ReplaceItemInObject` deletes the first child whose name fits; whether that is `subitem`.
unfoldable pub replaces : CJsonLib → Bytes → Place → ℕ → CJson → Bool
replaces lib key Place.below i (node it c n) = position (has_name lib.same key) c == i
replaces lib key _ i _ = false

-- `setAttributeValue_Int` stores into `subitem` after the replacement: a fault if that is deleted.
unfoldable pub set_attribute_value_int : CJsonLib → CJson → Bytes → ℤ → Run (CJson × Bool)
unfolding search_for replaces place
set_attribute_value_int lib o key v = do
  found ← search_for (is_kind cjson_number) key (is_kind cjson_number) o
  let new = lib.create_number (lib.floats.of_int v)
  elim found [
    | none ↦ ok (lib.add_item_to_object o (c_str key) new, true)
    | some (i, it, c) ↦
        if replaces lib key (place_of (is_kind cjson_number) o) i o
        then fault
        else ok (
          edit_at (place_of (is_kind cjson_number) o) i (λ x. record x { valueint = v })
              (lib.replace_item_in_object o key new),
          true,
        )
  ]

-- `curVal + incr` is a sum of `int`: a fault where it overflows.
unfoldable pub incr_attribute_value_int : CJsonLib → CJson → Bytes → ℤ → Run (CJson × Bool)
unfolding get_attribute_value_int set_attribute_value_int
incr_attribute_value_int lib o key incr = do
  cur ← get_attribute_value_int o key
  elim cur [
    | none ↦ ok (o, false)
    | some v ↦
        if fits_int (v +ℤ incr)
        then (set_attribute_value_int lib o key (v +ℤ incr) >>= λ r. ok (r.0, true))
        else fault
  ]

-- The common part of the other setters of numbers and texts: replace what the loop finds, by name,
-- or add the new item.
unfoldable pub put_item : CJsonLib → ℕ → CJson → Bytes → CJson → Run (CJson × Bool)
unfolding search_for
put_item lib kind o key new = do
  found ← search_for (is_kind kind) key (is_kind kind) o
  elim found [
    | none ↦ ok (lib.add_item_to_object o (c_str key) new, true)
    | some (i, it, c) ↦ ok (lib.replace_item_in_object o key new, true)
  ]

unfoldable pub set_attribute_value_double : CJsonLib → CJson → Bytes → Double → Run (CJson × Bool)
unfolding put_item
set_attribute_value_double lib o key v = put_item lib cjson_number o key (lib.create_number v)

unfoldable pub incr_attribute_value_double : CJsonLib → CJson → Bytes → Double → Run (CJson × Bool)
unfolding get_attribute_value_double set_attribute_value_double
incr_attribute_value_double lib o key incr = do
  cur ← get_attribute_value_double o key
  elim cur [
    | none ↦ ok (o, false)
    | some v ↦
        (set_attribute_value_double lib o key (lib.floats.plus v incr) >>= λ r. ok (r.0, true))
  ]

unfoldable pub set_attribute_value_string : CJsonLib → CJson → Bytes → Bytes → Run (CJson × Bool)
unfolding put_item
set_attribute_value_string lib o key v =
    put_item lib cjson_string o key (lib.create_string (c_str v))

-- Here the type of what the loop finds is set in place.
unfoldable pub set_attribute_value_bool : CJsonLib → CJson → Bytes → Bool → Run (CJson × Bool)
unfolding search_for place
set_attribute_value_bool lib o key v = do
  found ← search_for is_bool key is_bool o
  elim found [
    | none ↦ ok (
      lib.add_item_to_object o (c_str key) (if v then lib.create_true else lib.create_false),
      true,
    )
    | some (i, it, c) ↦ ok (
      edit_at (place_of is_bool o) i
          (λ x. record x { kind = if v then cjson_true else cjson_false }) o,
      true,
    )
  ]
