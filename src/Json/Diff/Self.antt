-- ===== src/Json/Diff/Self.antt =====
-- `diffJSONObjects` of an object with itself.
use protobuf_sandbox.Prelude.{
  ℕ, zero, suc, ◌+◌, ◌≤◌, ◌≡◌, ◌≢◌, ◌⊎◌, inl, inr, refl, sym, ap, ◌∙◌, Bool, true, false, Option,
  none, some, ◌∷◌, ◌++◌, arith, ◌==◌, ==_iff, Bool-cases, Option-cases, Bytes, codes, c_str,
  str_eq_self, Run, ok, ◌>>=◌,
}
use protobuf_sandbox.Json.Node.{
  Item, CJson, null, node, cjson_number, cjson_string, cjson_array, cjson_object, drop, find_first,
}
use protobuf_sandbox.Json.Library.{CJsonLib, has_name}
use protobuf_sandbox.Json.Getters.{exists_in, does_attribute_exist}
use protobuf_sandbox.Json.Setters.Truth.{does_attribute_exist-object}
use protobuf_sandbox.Json.Diff.{
  FloatTests, are_same, diff_items, diff_json_object, diff_elements, diff_arrays, diff_child, below,
  diff_loop, diff_json_objects,
}

-- A number is finite, and a string has its text.
pub record IsComparable (ft : FloatTests) (x : Item) : Type 0 where
  pub finite : (x.kind ≢ cjson_number) ⊎ (ft.is_finite x.valuedouble ≡ true)
  pub has_text : (x.kind ≢ cjson_string) ⊎ (x.valuestring ≢ none)

abbrev pub AllComparable : FloatTests → CJson → Type 0
AllComparable ft null = Unit {0}
AllComparable ft (node x c n) = IsComparable ft x × AllComparable ft n

-- Each child of the chain has a name that is not empty, is the one that the library finds for it in
-- `o`, and is comparable; so are the elements of arrays, and the children of objects, at every depth.
abbrev pub IsTidy : CJsonLib → FloatTests → CJson → CJson → Type 0
IsTidy lib ft o null = Unit {0}
IsTidy lib ft o (node x c n) =
    ((b : ℕ) × (s : Bytes) × (x.name ≡ some (b ∷ s)) × (lib.get_object_item o (b ∷ s) ≡ node x c n))
    × IsComparable ft x
    × ((x.kind ≢ cjson_array) ⊎ AllComparable ft c)
    × ((x.kind ≢ cjson_object) ⊎ IsTidy lib ft (node x c n) c)
    × IsTidy lib ft o n

-- The number of items of the chain, with all below them.
abbrev pub weight : CJson → ℕ
weight null = 0
weight (node x c n) = suc (weight c + weight n)

pub found-exists_in :
    (p : Item → Bool) (c0 : CJson) (b : ℕ) (s : Bytes) (x : Item) (c n : CJson)
    → find_first p c0 ≡ node x c n
    → x.name ≡ some (b ∷ s)
    → exists_in (b ∷ s) false c0 ≡ true
unfolding find_first exists_in
found-exists_in p null b s x c n e m = cc
found-exists_in p (node y k r) b s x c n e m =
    ground (arith, str_eq_self (b ∷ s), found-exists_in p r b s x c n)

module _ (lib : CJsonLib) (ft : FloatTests) where
  diff_items_self :
      (x : Item) (key : Bytes) (diff : CJson)
      → IsComparable ft x
      → diff_items lib ft x x key diff ≡ ok diff
  unfolding diff_items are_same
  diff_items_self x key diff h = elim (Option-cases x.valuestring) [
    | inl z ↦ ground (arith, h.finite, h.has_text, ft.minus_self x.valuedouble)
    | inr (t, z) ↦ rw z (ground (arith, h.finite, ft.minus_self x.valuedouble, str_eq_self t))
  ]

  diff_json_object_self :
      (c : CJson) (i : ℕ) (key : Bytes) (diff : CJson)
      → AllComparable ft c
      → diff_json_object lib ft (drop i c) (drop i c) key diff ≡ ok diff
  unfolding diff_json_object drop
  diff_json_object_self null zero key diff h = refl
  diff_json_object_self null (suc i) key diff h = refl
  diff_json_object_self (node x c n) zero key diff (h, hs) = diff_items_self x key diff h
  diff_json_object_self (node x c n) (suc i) key diff (h, hs) =
      diff_json_object_self n i key diff hs

  diff_elements_self :
      (rounds index : ℕ) (x : Item) (c n : CJson) (name : Bytes) (diff : CJson)
      → AllComparable ft c
      → diff_elements lib ft (node x c n) (node x c n) name index rounds diff ≡ ok diff
  unfolding diff_elements
  diff_elements_self zero index x c n name diff h = refl
  diff_elements_self (suc rounds) index x c n name diff h =
      let key = c_str (name ++ (codes "[" ++ (ft.show_index index ++ codes "]"))) in
      ap (λ w. w >>= λ d. diff_elements lib ft (node x c n) (node x c n) name (index + 1) rounds d)
        (ap (λ m. diff_json_object lib ft m m key diff) (lib.item_lem x c n index)
          ∙ diff_json_object_self c index key diff h)
      ∙ diff_elements_self rounds (index + 1) x c n name diff h

  -- A child that the library finds for its own name, whatever the recursion is that leaves what
  -- collects as it is.
  diff_child_self :
      (again : CJson → CJson → CJson → Run (Option CJson)) (o : CJson) (name : Bytes) (x : Item)
      (c n diff : CJson)
      → lib.get_object_item o name ≡ node x c n
      → IsComparable ft x
      → (x.kind ≢ cjson_array) ⊎ AllComparable ft c
      → (x.kind ≡ cjson_object → again (node x c n) (node x c n) diff ≡ ok (some diff))
      → diff_child true lib ft again o o name x c n diff ≡ ok (some diff)
  unfolding diff_child diff_arrays diff_json_object
  diff_child_self again o name x c n diff g h elements sub =
      elim (Bool-cases (cjson_array == x.kind)) [
        | inl k ↦
            let kind = (==_iff 5 x.kind).0 k in
            rw (k, g)
              (rw ((==_iff x.kind 5).1 (sym kind)) (elim elements [
                | inl other ↦ absurd (other (sym kind))
                | inr all ↦
                    rw (diff_elements_self (lib.get_array_size (node x c n)) 0 x c n name diff all)
              ]))
        | inr k ↦ elim (Bool-cases (cjson_object == x.kind)) [
          | inl j ↦ rw (k, j, g) (sub (sym ((==_iff 6 x.kind).0 j)))
          | inr j ↦ rw (k, j, g) (rw (diff_items_self x name diff h))
        ]
      ]

  diff_loop_self :
      (fuel : ℕ) (it : Item) (ch nx chain diff : CJson)
      → weight chain ≤ fuel
      → it.kind ≡ cjson_object
      → IsTidy lib ft (node it ch nx) chain
      → diff_loop lib ft fuel (node it ch nx) (node it ch nx) chain diff ≡ ok (some diff)
  unfolding diff_loop below
  diff_loop_self fuel it ch nx null diff f e t = refl
  diff_loop_self zero it ch nx (node x c n) diff f e t = absurd (omega arith)
  diff_loop_self (suc fuel) it ch nx (node x c n) diff f e
        ((b, s, z, g), h, elements, below_it, rest) =
      let o = node it ch nx in
      let there : does_attribute_exist o (b ∷ s) false ≡ ok true =
        does_attribute_exist-object it ch nx (b ∷ s) false e
        ∙ ap ok (
            found-exists_in (has_name lib.same (b ∷ s)) ch b s x c n
              (sym (lib.get_lem it ch nx (b ∷ s)) ∙ g) z) in
      let sub : x.kind ≡ cjson_object
          → below (diff_loop lib ft fuel) (node x c n) (node x c n) diff ≡ ok (some diff) =
        λ k. elim below_it [
          | inl other ↦ absurd (other k)
          | inr tidy ↦ diff_loop_self fuel x c n c diff (omega arith) k tidy
        ] in
      let child =
        diff_child_self (below (diff_loop lib ft fuel)) o (b ∷ s) x c n diff g h elements sub in
      rw (z, diff_loop)
        (rw there (rw child (diff_loop_self fuel it ch nx n diff (omega arith) e rest)))

  -- An object whose children have names that are not empty and that the library tells apart, and whose
  -- numbers are finite and strings have their texts, at every depth: `diffJSONObjects` of it with itself
  -- ends, in as many rounds of each loop as there are items below it, returns true and notes nothing.
  pub diff_json_objects_self :
      (fuel : ℕ) (it : Item) (c n diff : CJson)
      → weight c ≤ fuel
      → it.kind ≡ cjson_object
      → IsTidy lib ft (node it c n) c
      → diff_json_objects lib ft fuel (node it c n) (node it c n) diff ≡ ok (some (diff, true))
  unfolding diff_json_objects
  diff_json_objects_self fuel it c n diff f e t = rw (diff_loop_self fuel it c n c diff f e t)
