-- ===== src/Json/Setters/Int.antt =====
-- `setAttributeValue_Int`: where its store into a deleted item makes it fault, and what it does
-- where the attribute is new.
use protobuf_sandbox.Prelude.{
  ◌≡◌, refl, sym, Bool, true, none, some, arith, ap, ◌∙◌, Option-cases, Bool-cases, inl, inr, Bytes,
  str_eq_self, c_str, ok, fault, ==_iff,
}
use protobuf_sandbox.Prelude.Int.{ℤ, fits_int, ◌+ℤ◌}
use protobuf_sandbox.Json.Node.{
  Item, CJson, null, node, cjson_number, is_kind, find_first, position, append, IsNamed,
}
use protobuf_sandbox.Json.Library.{CJsonLib, has_name, number_item, renamed}
use protobuf_sandbox.Json.Getters.{find_item, get_attribute_value_int}
use protobuf_sandbox.Json.Setters.{set_attribute_value_int, incr_attribute_value_int}
use protobuf_sandbox.Json.Setters.Chains.{str_eq-same, find_item-total}
use protobuf_sandbox.Json.Setters.Put.{IsObject, place-object, search_for-object, append-Put}

-- An exact hit that is also the first hit up to case is where the loop stops.
pub find_item-first :
    (lib : CJsonLib) (key : Bytes) (want : Item → Bool) (c : CJson) (x : Item) (kids rest : CJson)
    → find_first (has_name lib.same key) c ≡ node x kids rest
    → x.name ≡ some key
    → want x ≡ true
    → IsNamed c
    → find_item key want c ≡ ok (some (position (has_name lib.same key) c, x, kids))
unfolding find_item find_first position
find_item-first lib key want null x kids rest e m w h = cc
find_item-first lib key want (node it c n) x kids rest e m w ((s, z), h) = ground (
  arith,
  str_eq_self key,
  lib.same_refl key,
  str_eq-same lib key s,
  find_item-first lib key want n x kids rest,
)

module _ (lib : CJsonLib) where
  -- On an object whose children all have names: if the child that the library finds for the key,
  -- without regard to case, has exactly that name and is a number, then `setAttributeValue_Int` uses an item that it has just deleted.
  pub set_int_fault :
      (o : Item) (c n : CJson) (key : Bytes) (v : ℤ) (x : Item) (kids rest : CJson)
      → IsObject (node o c n)
      → lib.get_object_item (node o c n) key ≡ node x kids rest
      → x.name ≡ some key
      → x.kind ≡ cjson_number
      → set_attribute_value_int lib (node o c n) key v ≡ fault
  unfolding set_attribute_value_int
  set_int_fault o c n key v x kids rest (e, h) g m k =
      let number = is_kind cjson_number in
      let hit =
        find_item-first lib key number c x kids rest (sym (lib.get_lem o c n key) ∙ g) m
          ((==_iff 3 x.kind).1 (sym k)) h in
      rw (search_for-object number key number o c n (ground arith) e ∙ hit) (
        rw (place-object number o (ground arith) e)
          (rw ((==_iff _ (position (has_name lib.same key) c)).1 refl)))

  pub get_int-found :
      (o : Item) (c n : CJson) (key : Bytes) (x : Item) (kids rest : CJson)
      → IsObject (node o c n)
      → lib.get_object_item (node o c n) key ≡ node x kids rest
      → x.name ≡ some key
      → x.kind ≡ cjson_number
      → get_attribute_value_int (node o c n) key ≡ ok (some x.valueint)
  unfolding get_attribute_value_int
  get_int-found o c n key x kids rest (e, h) g m k =
      let number = is_kind cjson_number in
      rw (
        search_for-object number key number o c n (ground arith) e
        ∙ find_item-first lib key number c x kids rest (sym (lib.get_lem o c n key) ∙ g) m
            ((==_iff 3 x.kind).1 (sym k)) h)

  -- On an object whose children all have names, for a key without a NUL byte under which
  -- `getAttributeValue_Int` finds nothing, and an `int`: `setAttributeValue_Int` returns true,
  -- leaves such an object, and the getter then reads the value.
  pub get_int-set_int :
      (o : CJson) (key : Bytes) (v : ℤ)
      → IsObject o
      → c_str key ≡ key
      → fits_int v ≡ true
      → get_attribute_value_int o key ≡ ok none
      → (q : CJson) × (set_attribute_value_int lib o key v ≡ ok (q, true))
        × IsObject q
        × (get_attribute_value_int q key ≡ ok (some v))
  unfolding set_attribute_value_int get_attribute_value_int
  get_int-set_int null key v h t f g = absurd h
  get_int-set_int (node it c n) key v (e, h) t f g =
      let number = is_kind cjson_number in
      let new = number_item lib.floats (lib.floats.of_int v) in
      let (r, q) = find_item-total key number c h in
      let look = search_for-object number key number it c n (ground arith) e in
      elim (Option-cases r) [
        | inl z ↦
            let put = append-Put lib key new null number c (q ∙ ap ok z) refl h in
            let c' = append c (node (renamed key new) null null) in
            (
              node it c' n,
              rw (look ∙ q, z)
                  (rw t (
                    rw (lib.create_number_lem (lib.floats.of_int v))
                      (rw (lib.add_lem it c n key new null)))),
              (e, put.named),
              rw (search_for-object number key number it c' n (ground arith) e ∙ put.held)
                  (rw (lib.floats.to_int-of_int v f)),
            )
        | inr (x, z) ↦ cc (rw (look ∙ q, z) at g)
      ]

  -- On an object whose children all have names: if the child that the library finds for the key,
  -- without regard to case, has exactly that name and is a number, then `incrAttributeValue_Int`
  -- faults, whatever the increment.
  pub incr_int_fault :
      (o : Item) (c n : CJson) (key : Bytes) (incr : ℤ) (x : Item) (kids rest : CJson)
      → IsObject (node o c n)
      → lib.get_object_item (node o c n) key ≡ node x kids rest
      → x.name ≡ some key
      → x.kind ≡ cjson_number
      → incr_attribute_value_int lib (node o c n) key incr ≡ fault
  unfolding incr_attribute_value_int
  incr_int_fault o c n key incr x kids rest h g m k =
      let got = get_int-found o c n key x kids rest h g m k in
      let set = set_int_fault o c n key (x.valueint +ℤ incr) x kids rest h g m k in
      elim (Bool-cases (fits_int (x.valueint +ℤ incr))) [
        | inl fits ↦ rw got (rw fits (rw set))
        | inr over ↦ rw got (rw over)
      ]
