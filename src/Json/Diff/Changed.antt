-- ===== src/Json/Diff/Changed.antt =====
-- What `diffJSONObjects` does with a child that the second object lacks, and with a number that differs.
use protobuf_sandbox.Prelude.{
  ℕ, suc, ◌≡◌, ◌≢◌, sym, true, false, Option, none, some, ◌∷◌, ◌++◌, ◌==◌, ==_iff, Bool-cases, inl,
  inr, Bytes, codes, Run, ok, fault,
}
use protobuf_sandbox.Json.Node.{Item, CJson, node, cjson_number, cjson_array}
use protobuf_sandbox.Json.Library.{CJsonLib}
use protobuf_sandbox.Json.Getters.{does_attribute_exist}
use protobuf_sandbox.Json.Diff.{
  FloatTests, are_same, note, note_added, diff_items, diff_json_object, diff_child, below,
  diff_loop, diff_json_objects,
}

module _ (lib : CJsonLib) (ft : FloatTests) where
  diff_child_missing :
      (again : CJson → CJson → CJson → Run (Option CJson)) (o1 o2 : CJson) (name : Bytes) (x : Item)
      (c n diff : CJson)
      → x.kind ≢ cjson_array
      → x.valuestring ≡ none
      → diff_child false lib ft again o1 o2 name x c n diff ≡ fault
  unfolding diff_child note_added
  diff_child_missing again o1 o2 name x c n diff k z = elim (Bool-cases (cjson_array == x.kind)) [
    | inl j ↦ absurd (k (sym ((==_iff 5 x.kind).0 j)))
    | inr j ↦ rw (j, z)
  ]

  -- Where the second object lacks an attribute that the first one has as its first child, and that is no
  -- array and holds no text, such as a number or an object: `diffJSONObjects` runs into undefined
  -- behaviour, as it writes the NULL text of the child to a stream.
  pub diff_missing_fault :
      (fuel : ℕ) (it : Item) (x : Item) (c n nx : CJson) (o2 : Item) (c2 n2 diff : CJson) (b : ℕ)
      (s : Bytes)
      → x.name ≡ some (b ∷ s)
      → does_attribute_exist (node o2 c2 n2) (b ∷ s) false ≡ ok false
      → x.kind ≢ cjson_array
      → x.valuestring ≡ none
      → diff_json_objects lib ft (suc fuel) (node it (node x c n) nx) (node o2 c2 n2) diff ≡ fault
  unfolding diff_json_objects diff_loop
  diff_missing_fault fuel it x c n nx o2 c2 n2 diff b s z gone k t =
      let o1 = node it (node x c n) nx in
      let other = node o2 c2 n2 in
      let again = below (diff_loop lib ft fuel) in
      rw (z, diff_loop) (rw gone (rw (diff_child_missing again o1 other (b ∷ s) x c n diff k t)))

  diff_child-number :
      (again : CJson → CJson → CJson → Run (Option CJson)) (o1 o2 : CJson) (name : Bytes)
      (x y : Item) (c n kids rest diff : CJson)
      → lib.get_object_item o2 name ≡ node y kids rest
      → x.kind ≡ cjson_number
      → are_same ft x.valuedouble y.valuedouble ≡ false
      → diff_child true lib ft again o1 o2 name x c n diff
        ≡ ok (
            some (
              note lib diff name
                (ft.show x.valuedouble ++ (codes " -> " ++ ft.show y.valuedouble))))
  unfolding diff_child diff_json_object diff_items
  diff_child-number again o1 o2 name x y c n kids rest diff g k differ =
      rw k (rw g (rw (differ, diff_json_object)))

  -- Where the first child of the first object is a number, and the second object has an item of the same
  -- name that the library finds: if the two doubles are not the same, then the loop notes both under the
  -- name, and goes on with the next child.
  pub diff_loop-number :
      (fuel : ℕ) (o1 : CJson) (x : Item) (c n : CJson) (o2 : Item) (c2 n2 diff : CJson) (b : ℕ)
      (s : Bytes) (y : Item) (kids rest : CJson)
      → x.name ≡ some (b ∷ s)
      → does_attribute_exist (node o2 c2 n2) (b ∷ s) false ≡ ok true
      → lib.get_object_item (node o2 c2 n2) (b ∷ s) ≡ node y kids rest
      → x.kind ≡ cjson_number
      → are_same ft x.valuedouble y.valuedouble ≡ false
      → diff_loop lib ft (suc fuel) o1 (node o2 c2 n2) (node x c n) diff
        ≡ diff_loop lib ft fuel o1 (node o2 c2 n2) n (
            note lib diff
              (b ∷ s)
              (ft.show x.valuedouble ++ (codes " -> " ++ ft.show y.valuedouble)))
  unfolding diff_loop
  diff_loop-number fuel o1 x c n o2 c2 n2 diff b s y kids rest z there g k differ =
      let again = below (diff_loop lib ft fuel) in
      rw (z, diff_loop)
        (rw there (
          rw
            (diff_child-number again o1 (node o2 c2 n2) (b ∷ s) x y c n kids rest diff g k differ)))
