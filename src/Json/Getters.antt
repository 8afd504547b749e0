-- ===== src/Json/Getters.antt =====
-- The readers of src/CNT_JSON.c: `doesAttributeExist`, `getAttributeValue_*`, `getAttributeDefault_*`
-- and `getID`. The result `some v` is `true` with the out-parameter set to `v`, and `none` is
-- `false` with the out-parameter as it was. A NULL root, or a NULL name that is compared, faults.
pub mod Arrays
use protobuf_sandbox.Prelude.{
  ℕ, zero, suc, ◌+◌, Bool, true, false, ◌&&◌, ◌||◌, Option, none, some, List, [], ◌∷◌, ltb,
  if◌then◌else◌, Bytes, codes, str_eq, Run, ok, fault, ◌>>=◌,
}
use protobuf_sandbox.Prelude.Int.{ℤ, negsuc}
use protobuf_sandbox.Json.Node.{
  Double, Item, CJson, null, node, cjson_true, cjson_false, cjson_number, cjson_string, cjson_array,
  cjson_object, is_kind, is_bool, is_container,
}
use protobuf_sandbox.Json.Library.{CJsonLib}

-- `subitem->string && strlen(subitem->string) > 0 && AttributeKey.compare(subitem->string) == 0`.
abbrev pub named_as : Bytes → Option Bytes → Bool
named_as key none = false
named_as key (some []) = false
named_as key (some (c ∷ s)) = str_eq key (c ∷ s)

-- The loop of `doesAttributeExist`, with its recursion into a container below the chain.
unfoldable pub exists_in : Bytes → Bool → CJson → Bool
exists_in key recurse null = false
exists_in key recurse (node it c n) =
    named_as key it.name
    || (is_container it && recurse && exists_in key recurse c)
    || exists_in key recurse n

unfoldable pub does_attribute_exist : CJson → Bytes → Bool → Run Bool
unfolding exists_in
does_attribute_exist null key recurse = fault
does_attribute_exist (node it c n) key recurse =
    ok (exists_in key recurse (if is_container it then c else node it c n))

-- Where the `switch` of the getters and setters puts `subitem`.
pub data Place : Type 0 where
  self below beside : Place

unfoldable pub place : (Item → Bool) → Item → Place
place own it =
    if own it then Place.self else if is_kind cjson_object it then Place.below else Place.beside

abbrev pub chain_at : Place → CJson → CJson
chain_at p null = null
chain_at Place.self (node it c n) = node it c n
chain_at Place.below (node it c n) = c
chain_at Place.beside (node it c n) = n

-- The `while` loop: the first item with the name that also passes the test, and its index.
unfoldable pub find_item : Bytes → (Item → Bool) → CJson → Run (Option (ℕ × Item × CJson))
find_item key want null = ok none
find_item key want (node it c n) = elim it.name [
  | none ↦ fault
  | some s ↦
      if str_eq key s && want it
      then ok (some (zero, it, c))
      else (find_item key want n
          >>= elim [ none ↦ ok none | some (i, x, k) ↦ ok (some (suc i, x, k)) ])
]

-- The `switch` and the loop together.
unfoldable pub search_for :
    (Item → Bool) → Bytes → (Item → Bool) → CJson → Run (Option (ℕ × Item × CJson))
unfolding find_item place
search_for own key want null = fault
search_for own key want (node it c n) = find_item key want (chain_at (place own it) (node it c n))

unfoldable pub get_attribute_value_int : CJson → Bytes → Run (Option ℤ)
unfolding search_for
get_attribute_value_int o key = do
  found ← search_for (is_kind cjson_number) key (is_kind cjson_number) o
  elim found [ none ↦ ok none | some (i, it, c) ↦ ok (some it.valueint) ]

unfoldable pub get_attribute_default_int : CJson → Bytes → ℤ → Run ℤ
unfolding get_attribute_value_int
get_attribute_default_int o key missing = do
  temp ← get_attribute_value_int o key
  elim temp [ none ↦ ok missing | some v ↦ ok v ]

unfoldable pub get_attribute_value_double : CJson → Bytes → Run (Option Double)
unfolding search_for
get_attribute_value_double o key = do
  found ← search_for (is_kind cjson_number) key (is_kind cjson_number) o
  elim found [ none ↦ ok none | some (i, it, c) ↦ ok (some it.valuedouble) ]

unfoldable pub get_attribute_default_double : CJson → Bytes → Double → Run Double
unfolding get_attribute_value_double
get_attribute_default_double o key missing = do
  temp ← get_attribute_value_double o key
  elim temp [ none ↦ ok missing | some v ↦ ok v ]

-- `valuestring.assign(subitem->valuestring)`, which faults on NULL.
unfoldable pub get_attribute_value_string : CJson → Bytes → Run (Option Bytes)
unfolding search_for
get_attribute_value_string o key = do
  found ← search_for (is_kind cjson_string) key (is_kind cjson_string) o
  elim found [
    | none ↦ ok none
    | some (i, it, c) ↦ elim it.valuestring [ none ↦ fault | some s ↦ ok (some s) ]
  ]

-- Here the first item with the name decides, whatever its type.
unfoldable pub get_attribute_value_bool : CJson → Bytes → Run (Option Bool)
unfolding search_for
get_attribute_value_bool o key = do
  found ← search_for is_bool key (λ it. true) o
  elim found [
    | none ↦ ok none
    | some (i, it, c) ↦ ok (
        if is_kind cjson_true it
        then some true
        else if is_kind cjson_false it
        then some false
        else none)
  ]

-- The filling loop of `getAttributeValue_IntArray`: `rounds` more values at most, from `index` on.
unfoldable pub fill_ints : CJsonLib → CJson → ℕ → ℕ → Run (List ℤ)
fill_ints lib arr index zero = ok []
fill_ints lib arr index (suc rounds) =
    let rest = fill_ints lib arr (index + 1) rounds in
    if ltb index (lib.get_array_size arr)
    then elim (lib.get_array_item arr index) [
      | null ↦ fault
      | node it c n ↦ (rest >>= λ vs. ok (it.valueint ∷ vs))
    ]
    else ok []

-- The result is what is written to the front of the caller's array.
unfoldable pub get_attribute_value_int_array : CJsonLib → CJson → Bytes → ℕ → Run (Option (List ℤ))
unfolding search_for fill_ints
get_attribute_value_int_array lib o key n_values = do
  found ← search_for (is_kind cjson_array) key (is_kind cjson_array) o
  elim found [
    | none ↦ ok none
    | some (i, it, c) ↦ (fill_ints lib (node it c null) 0 n_values >>= λ vs. ok (some vs))
  ]

-- `INVALID_ID`, -9999.
abbrev pub invalid_id : ℤ
invalid_id = negsuc 9998

unfoldable pub get_id : CJson → Run ℤ
unfolding get_attribute_value_int
get_id o = do
  found ← get_attribute_value_int o (codes "id")
  elim found [ none ↦ ok invalid_id | some id ↦ ok id ]
