-- ===== src/Json/Setters/Truth.antt =====
-- `setAttributeValue_Bool` and `getAttributeValue_Bool`. The setter passes over items of the name
-- that are no truth values, and the getter stops at the first of the name.
use protobuf_sandbox.Prelude.{
  ℕ, ◌≡◌, ◌≢◌, refl, sym, Bool, true, false, Option, none, some, [], arith, ap, ◌∙◌, Option-cases,
  Bool-cases, Bytes, inl, inr, ◌⊎◌, c_str, Run, ok, if◌then◌else◌,
}
use protobuf_sandbox.Json.Node.{
  Item, CJson, null, node, cjson_object, cjson_true, cjson_false, is_bool, is_kind, edit, append,
  IsNamed, size,
}
use protobuf_sandbox.Json.Library.{CJsonLib, blank, renamed}
use protobuf_sandbox.Json.Getters.{
  exists_in, find_item, does_attribute_exist, get_attribute_value_bool,
}
use protobuf_sandbox.Json.Setters.{set_attribute_value_bool}
use protobuf_sandbox.Json.Setters.Chains.{find_item-total, find_item-append_self}
use protobuf_sandbox.Json.Setters.Stores.{
  any_item, find_item-wanted, find_item-none, find_item-exists, exists_in-none, find_item-edit_self,
  find_item-append_found, find_item-edit_later, IsNamed-edit,
}
use protobuf_sandbox.Json.Setters.Put.{IsObject, place-object, search_for-object, IsNamed-append}

abbrev truth : Bool → Item → Item
truth v x = record x { kind = if v then cjson_true else cjson_false }

is_bool-object : (it : Item) → it.kind ≡ cjson_object → is_bool it ≡ false
is_bool-object it e = ground arith

pub does_attribute_exist-object :
    (it : Item) (c n : CJson) (key : Bytes) (recurse : Bool)
    → it.kind ≡ cjson_object
    → does_attribute_exist (node it c n) key recurse ≡ ok (exists_in key recurse c)
unfolding does_attribute_exist
does_attribute_exist-object it c n key recurse e = ground arith

module _ (lib : CJsonLib) where
  -- The call and the getter on an object, by what the loops find among the children.
  set_bool_found :
      (it : Item) (c n : CJson) (key : Bytes) (v : Bool) (i : ℕ) (x : Item) (k : CJson)
      → it.kind ≡ cjson_object
      → find_item key is_bool c ≡ ok (some (i, x, k))
      → set_attribute_value_bool lib (node it c n) key v ≡ ok (node it (edit i (truth v) c) n, true)
  unfolding set_attribute_value_bool
  set_bool_found it c n key v i x k e g =
      rw (search_for-object is_bool key is_bool it c n (is_bool-object it e) e ∙ g)
        (rw (place-object is_bool it (is_bool-object it e) e))

  set_bool_added :
      (it : Item) (c n : CJson) (key : Bytes) (v : Bool)
      → it.kind ≡ cjson_object
      → c_str key ≡ key
      → find_item key is_bool c ≡ ok none
      → set_attribute_value_bool lib (node it c n) key v
        ≡ ok (
          node it (append c (node (renamed key (truth v (blank cjson_false))) null null)) n,
          true,
        )
  unfolding set_attribute_value_bool
  set_bool_added it c n key true e t g =
      rw (search_for-object is_bool key is_bool it c n (is_bool-object it e) e ∙ g)
        (rw (t, lib.create_true_lem) (rw (lib.add_lem it c n key (blank cjson_true) null)))
  set_bool_added it c n key false e t g =
      rw (search_for-object is_bool key is_bool it c n (is_bool-object it e) e ∙ g)
        (rw (t, lib.create_false_lem) (rw (lib.add_lem it c n key (blank cjson_false) null)))

  get_bool-found :
      (it : Item) (c n : CJson) (key : Bytes) (i : ℕ) (x : Item) (k : CJson)
      → it.kind ≡ cjson_object
      → find_item key any_item c ≡ ok (some (i, x, k))
      → get_attribute_value_bool (node it c n) key
        ≡ ok (
            if is_kind cjson_true x
            then some true
            else if is_kind cjson_false x
            then some false
            else none)
  unfolding get_attribute_value_bool
  get_bool-found it c n key i x k e g =
      rw (search_for-object is_bool key any_item it c n (is_bool-object it e) e ∙ g)

  get_truth :
      (v : Bool) (x : Item)
      → ◌≡◌ {A = Run (Option Bool)}
          (ok (
            if is_kind cjson_true (truth v x)
            then some true
            else if is_kind cjson_false (truth v x)
            then some false
            else none))
          (ok (some v))
  get_truth true x = refl
  get_truth false x = refl

  get_other :
      (x : Item)
      → is_bool x ≡ false
      → ◌≡◌ {A = Run (Option Bool)}
          (ok (
            if is_kind cjson_true x
            then some true
            else if is_kind cjson_false x
            then some false
            else none))
          (ok none)
  get_other x b = ground arith

  -- On an object whose children all have names, where the getter reads a truth value under the key
  -- or no child has the key as its name:
  -- `setAttributeValue_Bool` returns true, leaves an object with named children, and the getter
  -- then reads the value that was set. The key holds no NUL byte and is not empty.
  pub get_bool-set_bool :
      (o : CJson) (key : Bytes) (v : Bool)
      → IsObject o
      → c_str key ≡ key
      → key ≢ []
      → (get_attribute_value_bool o key ≢ ok none) ⊎ (does_attribute_exist o key false ≡ ok false)
      → (q : CJson) × (set_attribute_value_bool lib o key v ≡ ok (q, true))
        × IsObject q
        × (get_attribute_value_bool q key ≡ ok (some v))
  get_bool-set_bool null key v h t ne there = absurd h
  get_bool-set_bool (node it c n) key v (e, h) t ne there =
      let (r, q) = find_item-total key any_item c h in
      elim (Option-cases r) [
        | inl z ↦
            let none_there = q ∙ ap ok z in
            let new = truth v (blank cjson_false) in
            let c' = append c (node (renamed key new) null null) in
            (
              node it c' n,
              set_bool_added it c n key v e t (find_item-none key is_bool c none_there),
              (e, IsNamed-append c key new null h),
              get_bool-found it c' n key (size c) (renamed key new) null e
                    (find_item-append_self lib key new null any_item c none_there refl)
                  ∙ get_truth v (renamed key new),
            )
        | inr ((i, x, k), z) ↦ elim (Bool-cases (is_bool x)) [
          | inl b ↦
              let c' = edit i (truth v) c in
              (
                node it c' n,
                set_bool_found it c n key v i x k e
                    (find_item-wanted key is_bool c i x k (q ∙ ap ok z) b),
                (e, IsNamed-edit (truth v) c i (λ y. refl) h),
                get_bool-found it c' n key i (truth v x) k e
                      (find_item-edit_self key (truth v) c i x k (λ y. refl) (q ∙ ap ok z))
                    ∙ get_truth v x,
              )
          | inr b ↦ absurd (elim there [
            | inl read ↦ read (get_bool-found it c n key i x k e (q ∙ ap ok z) ∙ get_other x b)
            | inr gone ↦ cc (
                find_item-exists key c ne h
                  (ground (arith, does_attribute_exist-object it c n key false e)))
          ])
        ]
      ]

  -- The setter finds no truth value, or one behind the item at which the getter stops.
  passed_over :
      (it : Item) (c n : CJson) (key : Bytes) (v : Bool)
      → it.kind ≡ cjson_object
      → IsNamed c
      → c_str key ≡ key
      → (i : ℕ) (x : Item) (k : CJson) → find_item key any_item c ≡ ok (some (i, x, k))
      → is_bool x ≡ false
      → (q : CJson) × (set_attribute_value_bool lib (node it c n) key v ≡ ok (q, true))
        × (get_attribute_value_bool q key ≡ ok none)
  passed_over it c n key v e h t i x k found b =
      let (r, q) = find_item-total key is_bool c h in
      elim (Option-cases r) [
        | inl z ↦
            let c' = append c (node (renamed key (truth v (blank cjson_false))) null null) in
            (
              node it c' n,
              set_bool_added it c n key v e t (q ∙ ap ok z),
              get_bool-found it c' n key i x k e (find_item-append_found key c _ i x k found)
                  ∙ get_other x b,
            )
        | inr ((j, y, l), z) ↦
            let c' = edit j (truth v) c in
            (
              node it c' n,
              set_bool_found it c n key v j y l e (q ∙ ap ok z),
              get_bool-found it c' n key i x k e
                    (find_item-edit_later key is_bool (truth v) c i j x y k l found b (q ∙ ap ok z))
                  ∙ get_other x b,
            )
      ]

  get_is_bool :
      (x : Item)
      → is_bool x ≡ true
      → ◌≢◌ {A = Run (Option Bool)}
          (ok (
            if is_kind cjson_true x
            then some true
            else if is_kind cjson_false x
            then some false
            else none))
          (ok none)
  get_is_bool x b e = ground arith

  -- On an object whose children all have names, for a key that is not empty and holds no NUL byte:
  -- if the key is there and the getter reads no truth value under it, `setAttributeValue_Bool` still
  -- returns true, and the getter still reads none.
  pub set_bool-lost :
      (o : CJson) (key : Bytes) (v : Bool)
      → IsObject o
      → c_str key ≡ key
      → key ≢ []
      → does_attribute_exist o key false ≡ ok true
      → get_attribute_value_bool o key ≡ ok none
      → (q : CJson) × (set_attribute_value_bool lib o key v ≡ ok (q, true))
        × (get_attribute_value_bool q key ≡ ok none)
  set_bool-lost null key v h t ne there g = absurd h
  set_bool-lost (node it c n) key v (e, h) t ne there g =
      let (r, q) = find_item-total key any_item c h in
      elim (Option-cases r) [
        | inl z ↦ cc (
          there,
          does_attribute_exist-object it c n key false e,
          exists_in-none key c (q ∙ ap ok z),
        )
        | inr ((i, x, k), z) ↦ elim (Bool-cases (is_bool x)) [
          | inl b ↦
              absurd (get_is_bool x b (sym (get_bool-found it c n key i x k e (q ∙ ap ok z)) ∙ g))
          | inr b ↦ passed_over it c n key v e h t i x k (q ∙ ap ok z) b
        ]
      ]
