-- ===== src/Json/Diff.antt =====
-- `diffJSONObjects`, `diffJSONObject` and `AreSame` of src/CNT_JSON.c. The object that collects the
-- differences is passed on and returned.
pub mod Self
pub mod Changed
use protobuf_sandbox.Prelude.{
  ℕ, zero, suc, ◌+◌, ◌≡◌, Bool, true, false, Option, none, some, [], ◌∷◌, ◌++◌, ◌==◌, if◌then◌else◌,
  Bytes, codes, c_str, str_eq, Run, ok, fault, ◌>>=◌,
}
use protobuf_sandbox.Json.Node.{
  Double, Item, CJson, null, node, cjson_false, cjson_true, cjson_null, cjson_number, cjson_string,
  cjson_array, cjson_object,
}
use protobuf_sandbox.Json.Library.{CJsonLib}
use protobuf_sandbox.Json.Getters.{does_attribute_exist}

-- What the code calls of the machine's doubles and of the streams here: a finite double differs from
-- itself by 0, which is below `epsilon`. `show` and `show_index` are `<<` of a double and of an int.
pub record FloatTests : Type 0 where
  pub minus : Double → Double → Double
  pub abs : Double → Double
  pub less : Double → Double → Bool
  pub epsilon : Double
  pub is_finite : Double → Bool
  pub show : Double → Bytes
  pub show_index : ℕ → Bytes
  pub minus_self : (a : Double) → is_finite a ≡ true → less (abs (minus a a)) epsilon ≡ true

unfoldable pub are_same : FloatTests → Double → Double → Bool
are_same ft a b = ft.less (ft.abs (ft.minus a b)) ft.epsilon

-- `cJSON_AddItemToObject(JSONObjDiff, key, cJSON_CreateString(text))`.
abbrev pub note : CJsonLib → CJson → Bytes → Bytes → CJson
note lib diff key text = lib.add_item_to_object diff key (lib.create_string (c_str text))

-- The case of two texts. A `std::string` of NULL, and a comparison with NULL, fault.
unfoldable pub diff_texts : CJsonLib → Option Bytes → Option Bytes → Bytes → CJson → Run CJson
diff_texts lib (some a) (some b) key diff =
    ok (if str_eq b a then diff else note lib diff key (a ++ (codes " -> " ++ b)))
diff_texts lib _ _ key diff = fault

-- The `switch` on the type of the first item; its tests of `item2` for NULL come too late to fail.
unfoldable pub diff_items : CJsonLib → FloatTests → Item → Item → Bytes → CJson → Run CJson
unfolding diff_texts
diff_items lib ft x y key diff =
    if cjson_false == x.kind
    then ok (if y.kind == cjson_true then note lib diff key (codes "False -> True") else diff)
    else if cjson_true == x.kind
    then ok (if y.kind == cjson_true then diff else note lib diff key (codes "True -> False"))
    else if cjson_null == x.kind
    then ok (
        if y.kind == cjson_null
        then diff
        else note lib diff key (codes "NULL -> " ++ ft.show y.valuedouble))
    else if cjson_number == x.kind
    then ok (
        if are_same ft x.valuedouble y.valuedouble
        then diff
        else note lib diff key (ft.show x.valuedouble ++ (codes " -> " ++ ft.show y.valuedouble)))
    else if cjson_string == x.kind
    then diff_texts lib x.valuestring y.valuestring key diff
    else ok diff

unfoldable pub diff_json_object : CJsonLib → FloatTests → CJson → CJson → Bytes → CJson → Run CJson
unfolding diff_items
diff_json_object lib ft (node x xc xn) (node y yc yn) key diff = diff_items lib ft x y key diff
diff_json_object lib ft _ _ key diff = ok diff

-- The `for` loop over the elements, from `index` on, for the rounds that are left.
unfoldable pub diff_elements :
    CJsonLib → FloatTests → CJson → CJson → Bytes → ℕ → ℕ → CJson → Run CJson
diff_elements lib ft a b name index zero diff = ok diff
diff_elements lib ft a b name index (suc rounds) diff = do
  next ←
      diff_json_object lib ft (lib.get_array_item a index) (lib.get_array_item b index)
        (c_str (name ++ (codes "[" ++ (ft.show_index index ++ codes "]")))) diff
  diff_elements lib ft a b name (index + 1) rounds next

-- The case of an array. The second item is missing only where the library finds none for the name.
unfoldable pub diff_arrays : CJsonLib → FloatTests → CJson → CJson → Bytes → CJson → Run CJson
unfolding diff_elements
diff_arrays lib ft a null name diff = fault
diff_arrays lib ft a (node y yc yn) name diff =
    if y.kind == cjson_array
    then diff_elements lib ft a (node y yc yn) name 0 (lib.get_array_size a) diff
    else elim y.name [
      | none ↦ fault
      | some k ↦ ok (note lib diff k (k ++ codes ": Type mismatch (2nd item not an array)"))
    ]

-- `ss << item1->valuestring << " was added"`. A NULL text is undefined behaviour.
unfoldable pub note_added : CJsonLib → Item → Bytes → CJson → Run CJson
note_added lib x name diff = elim x.valuestring [
  | none ↦ fault
  | some s ↦ ok (note lib diff name (s ++ codes " was added"))
]

-- One child of the first object, by whether the second has an attribute of its name. `none` is a
-- recursion that goes on; `again` is that recursion.
unfoldable pub diff_child :
    Bool
    → CJsonLib
    → FloatTests
    → (CJson → CJson → CJson → Run (Option CJson))
    → CJson
    → CJson
    → Bytes
    → Item
    → CJson
    → CJson
    → CJson
    → Run (Option CJson)
unfolding diff_arrays diff_json_object note_added
diff_child true lib ft again o1 o2 name x c n diff =
    if cjson_array == x.kind
    then (diff_arrays lib ft (node x c n) (lib.get_object_item o2 name) name diff >>= λ d.
        ok (some d))
    else if cjson_object == x.kind
    then again (lib.get_object_item o1 name) (lib.get_object_item o2 name) diff
    else (diff_json_object lib ft (node x c n) (lib.get_object_item o2 name) name diff >>= λ d.
        ok (some d))
diff_child false lib ft again o1 o2 name x c n diff =
    if cjson_array == x.kind
    then ok (some diff)
    else (note_added lib x name diff >>= λ d. ok (some d))

-- The call on two items, whose value the recursion drops, by the loop over the children of the first.
unfoldable pub below :
    (CJson → CJson → CJson → CJson → Run (Option CJson))
    → CJson
    → CJson
    → CJson
    → Run (Option CJson)
below loop (node x xc xn) (node y yc yn) diff = loop (node x xc xn) (node y yc yn) xc diff
below loop _ _ diff = ok (some diff)

-- The loop over the children. A round takes one of fuel; `continue` on an item without a name leaves
-- `item1` as it is.
unfoldable pub diff_loop :
    CJsonLib → FloatTests → ℕ → CJson → CJson → CJson → CJson → Run (Option CJson)
unfolding diff_child below
diff_loop lib ft fuel o1 o2 null diff = ok (some diff)
diff_loop lib ft zero o1 o2 (node x c n) diff = ok none
diff_loop lib ft (suc fuel) o1 o2 (node x c n) diff = elim x.name [
  | none ↦ diff_loop lib ft fuel o1 o2 (node x c n) diff
  | some [] ↦ diff_loop lib ft fuel o1 o2 (node x c n) diff
  | some (b ∷ s) ↦ do
    there ← does_attribute_exist o2 (b ∷ s) false
    r ← diff_child there lib ft (below (diff_loop lib ft fuel)) o1 o2 (b ∷ s) x c n diff
    elim r [ none ↦ ok none | some d ↦ diff_loop lib ft fuel o1 o2 n d ]
]

-- `diffJSONObjects`: the collected differences and the value returned.
unfoldable pub diff_json_objects :
    CJsonLib → FloatTests → ℕ → CJson → CJson → CJson → Run (Option (CJson × Bool))
unfolding diff_loop
diff_json_objects lib ft fuel (node x xc xn) (node y yc yn) diff = do
  r ← diff_loop lib ft fuel (node x xc xn) (node y yc yn) xc diff
  elim r [ none ↦ ok none | some d ↦ ok (some (d, true)) ]
diff_json_objects lib ft fuel _ _ diff = ok (some (diff, false))
