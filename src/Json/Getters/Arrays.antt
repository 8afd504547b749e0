-- ===== src/Json/Getters/Arrays.antt =====
-- What `getAttributeValue_IntArray` writes.
use protobuf_sandbox.Prelude.{
  ℕ, zero, suc, ◌+◌, ◌≤◌, ◌<◌, ◌≡◌, refl, sym, ap, ◌∙◌, true, false, some, List, [], ◌∷◌, arith,
  ltb, take, Bytes, ok, ==_iff,
}
use protobuf_sandbox.Prelude.Int.{ℤ}
use protobuf_sandbox.Json.Node.{Item, CJson, null, node, size, drop, cjson_array, is_kind}
use protobuf_sandbox.Json.Library.{CJsonLib}
use protobuf_sandbox.Json.Getters.{fill_ints, get_attribute_value_int_array}
use protobuf_sandbox.Json.Setters.Put.{IsObject, search_for-object}
use protobuf_sandbox.Json.Setters.Int.{find_item-first}

-- The specification: the numbers of the items, in order.
abbrev pub ints : CJson → List ℤ
ints null = []
ints (node it c n) = it.valueint ∷ ints n

drop_null : (i : ℕ) (c : CJson) → drop i c ≡ null → size c ≤ i
unfolding drop size
drop_null zero null h = omega arith
drop_null zero (node it k n) h = cc
drop_null (suc i) null h = omega arith
drop_null (suc i) (node it k n) h = omega (arith, drop_null i n h)

drop_node :
    (i : ℕ) (c : CJson) (x : Item) (kids rest : CJson)
    → drop i c ≡ node x kids rest
    → (i < size c) × (drop (suc i) c ≡ rest)
unfolding drop size
drop_node zero null x kids rest h = cc
drop_node zero (node it k n) x kids rest h = (omega arith, cc)
drop_node (suc i) null x kids rest h = cc
drop_node (suc i) (node it k n) x kids rest h =
    let (l, e) = drop_node i n x kids rest h in (omega arith, e)

module _ (lib : CJsonLib) where
  fill_ints-take :
      (rounds i : ℕ) (it : Item) (c n : CJson)
      → fill_ints lib (node it c n) i rounds ≡ ok (take rounds (ints (drop i c)))
  unfolding fill_ints
  fill_ints-take zero i it c n = refl
  fill_ints-take (suc rounds) i it c n = go (drop i c) refl (fill_ints-take rounds (i + 1) it c n)
    where
      past : drop i c ≡ null → ltb i (lib.get_array_size (node it c n)) ≡ false
      past e = ground (arith, lib.size_lem it c n, drop_null i c e)

      within : i < size c → ltb i (lib.get_array_size (node it c n)) ≡ true
      within l = ground (arith, lib.size_lem it c n)

      go :
          (m : CJson)
          → drop i c ≡ m
          → fill_ints lib (node it c n) (i + 1) rounds ≡ ok (take rounds (ints (drop (i + 1) c)))
          → fill_ints lib (node it c n) i (suc rounds) ≡ ok (take (suc rounds) (ints m))
      go null e more = rw (past e) refl
      go (node x kids rest) e more =
          let (l, later) = drop_node i c x kids rest e in
          rw (within l) (
            rw (lib.item_lem it c n i ∙ e) (
              rw (
                more
                ∙ ap (λ m. ok (take rounds (ints m)))
                    (ap (λ (j : ℕ). drop j c) (omega arith) ∙ later))))

  -- On an object whose children all have names: if the child that the library finds for the key,
  -- without regard to case, has exactly that name and is an array, then `getAttributeValue_IntArray`
  -- returns true and writes the numbers of its items in order, `n_values` at most.
  pub get_int_array-take :
      (o : Item) (c n : CJson) (key : Bytes) (n_values : ℕ) (x : Item) (kids rest : CJson)
      → IsObject (node o c n)
      → lib.get_object_item (node o c n) key ≡ node x kids rest
      → x.name ≡ some key
      → x.kind ≡ cjson_array
      → get_attribute_value_int_array lib (node o c n) key n_values
        ≡ ok (some (take n_values (ints kids)))
  unfolding get_attribute_value_int_array drop
  get_int_array-take o c n key n_values x kids rest (e, h) g m k =
      let array = is_kind cjson_array in
      rw
        (search_for-object array key array o c n (ground arith) e
          ∙ find_item-first lib key array c x kids rest (sym (lib.get_lem o c n key) ∙ g) m
              ((==_iff 5 x.kind).1 (sym k)) h)
        (rw (fill_ints-take n_values 0 x kids null))
