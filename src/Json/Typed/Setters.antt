-- ===== src/Json/Typed/Setters.antt =====
-- The setters on typed objects.
use protobuf_sandbox.Prelude.{
  ℕ, ◌≡◌, refl, sym, ap, Bool, true, false, arith, Option-cases, subst, inl, inr, Bytes, c_str,
  if◌then◌else◌, Run, ok,
}
use protobuf_sandbox.Json.Node.{
  Double, Item, CJson, null, node, cjson_number, cjson_string, cjson_true, is_kind, is_bool, append,
  replace_first, edit,
}
use protobuf_sandbox.Json.Library.{
  Floats, CJsonLib, blank, number_item, string_item, has_name, renamed,
}
use protobuf_sandbox.Json.Setters.{
  put_item, set_attribute_value_double, set_attribute_value_string, set_attribute_value_bool,
  incr_attribute_value_double, edit_at,
}
use protobuf_sandbox.Json.Setters.Put.{place-object}
use protobuf_sandbox.Json.Typed.{HasType, IsTypedObject}
use protobuf_sandbox.Json.Typed.Getters.{found, typed-Reads}
use protobuf_sandbox.Json.Typed.Chains.{
  append-IsTyped, replace_first-IsTyped, edit-IsTyped, number_item-HasType, string_item-HasType,
  truth_of, truth_of-HasType,
}

-- What a setter leaves.
abbrev pub Leaves : Floats → Run (CJson × Bool) → Type 0
Leaves fl r = (o : CJson) × (r ≡ ok (o, true)) × IsTypedObject fl o

module _ (lib : CJsonLib) (it : Item) (c n : CJson) (key : Bytes)
    (t : IsTypedObject lib.floats (node it c n)) where
  put_item-Leaves :
      (kind : ℕ) (new : Item)
      → is_kind kind it ≡ false
      → ((k : Bytes) → HasType lib.floats (renamed k new))
      → Leaves lib.floats (put_item lib kind (node it c n) key (node new null null))
  unfolding put_item
  put_item-Leaves kind new h typed =
      elim (found lib.floats it c n key (is_kind kind) (is_kind kind) h t) [
        | inl z ↦ (
          node it (append c (node (renamed (c_str key) new) null null)) n,
          rw z (rw (lib.add_lem it c n (c_str key) new null) refl),
          (t.0, append-IsTyped lib.floats c _ null t.1 (typed (c_str key))),
        )
        | inr (i, x, k, z, r, w) ↦ (
          node it (replace_first (has_name lib.same key) (renamed key new) null c) n,
          rw z (rw (lib.replace_lem it c n key new null) refl),
          (t.0, replace_first-IsTyped lib.floats _ c _ null t.1 (typed key)),
        )
      ]

  pub set_double-Leaves :
      (v : Double) → Leaves lib.floats (set_attribute_value_double lib (node it c n) key v)
  unfolding set_attribute_value_double
  set_double-Leaves v =
      subst (λ new. Leaves lib.floats (put_item lib cjson_number (node it c n) key new))
        (sym (lib.create_number_lem v))
        (put_item-Leaves cjson_number (number_item lib.floats v) (ground (arith, t.0))
          (λ k. number_item-HasType lib.floats k v))

  pub set_string-Leaves :
      (v : Bytes) → Leaves lib.floats (set_attribute_value_string lib (node it c n) key v)
  unfolding set_attribute_value_string
  set_string-Leaves v =
      subst (λ new. Leaves lib.floats (put_item lib cjson_string (node it c n) key new))
        (sym (lib.create_string_lem (c_str v)))
        (put_item-Leaves cjson_string (string_item (c_str v)) (ground (arith, t.0))
          (λ k. string_item-HasType lib.floats k (c_str v)))

  truth_item :
      (v : Bool)
      → (if v then lib.create_true else lib.create_false)
        ≡ node (truth_of v (blank cjson_true)) null null
  truth_item true = lib.create_true_lem
  truth_item false = lib.create_false_lem

  blank-HasType :
      (v : Bool) (k : Bytes) → HasType lib.floats (renamed k (truth_of v (blank cjson_true)))
  blank-HasType v k = truth_of-HasType lib.floats v (renamed k (blank cjson_true)) (record {
    named = (k, refl);
    text = λ e. absurd (omega (arith, e));
    number = λ e. absurd (omega (arith, e));
  })

  pub set_bool-Leaves :
      (v : Bool) → Leaves lib.floats (set_attribute_value_bool lib (node it c n) key v)
  unfolding set_attribute_value_bool
  set_bool-Leaves v =
      let own : is_bool it ≡ false = ground (arith, t.0) in
      elim (found lib.floats it c n key is_bool is_bool own t) [
        | inl z ↦ (
          node it (append c (node (renamed (c_str key) (truth_of v (blank cjson_true))) null null))
              n,
          rw z (
              rw (truth_item v)
                (rw (lib.add_lem it c n (c_str key) (truth_of v (blank cjson_true)) null) refl)),
          (t.0, append-IsTyped lib.floats c _ null t.1 (blank-HasType v (c_str key))),
        )
        | inr (i, x, k, z, r, w) ↦ (
          node it (edit i (truth_of v) c) n,
          rw z (
              ap (λ p. ok (edit_at p i (truth_of v) (node it c n), true))
                (place-object is_bool it own t.0)),
          (t.0, edit-IsTyped lib.floats (truth_of v) i c t.1 (truth_of-HasType lib.floats v)),
        )
      ]

  pub incr_double_typed :
      (d : Double)
      → (o : CJson) × (b : Bool) × (incr_attribute_value_double lib (node it c n) key d ≡ ok (o, b))
        × IsTypedObject lib.floats o
  unfolding incr_attribute_value_double
  incr_double_typed d =
      let reads = typed-Reads lib.floats it c n key t in
      elim (Option-cases reads.double) [
        | inl z ↦ (node it c n, false, rw (reads.double_read, z) refl, t)
        | inr (v, z) ↦
            let (o, e, typed) = set_double-Leaves (lib.floats.plus v d) in
            (o, true, rw (reads.double_read, z) (rw e refl), typed)
      ]
