-- ===== src/Json/Typed/Getters.antt =====
-- The getters on typed objects.
use protobuf_sandbox.Prelude.{
  ℕ, ◌≡◌, ◌⊎◌, refl, sym, ap, ◌∙◌, Bool, true, false, ◌&&◌, if◌then◌else◌, Option, none, some,
  arith, Bool-cases, Option-cases, inl, inr, Bytes, str_eq, ok, ==_iff, &&_iff, subst,
}
use protobuf_sandbox.Json.Node.{
  Double, Item, CJson, null, node, cjson_number, cjson_string, cjson_true, cjson_false, is_kind,
  is_bool, IsNamed,
}
use protobuf_sandbox.Json.Library.{Floats}
use protobuf_sandbox.Json.Getters.{
  find_item, search_for, get_attribute_value_int, get_attribute_value_double,
  get_attribute_value_string, get_attribute_value_bool,
}
use protobuf_sandbox.Json.Setters.Chains.{find_item-total}
use protobuf_sandbox.Json.Setters.Put.{search_for-object}
use protobuf_sandbox.Json.Typed.{HasType, IsTyped, IsTypedObject}

pub IsTyped-IsNamed : (fl : Floats) (c : CJson) → IsTyped fl c → IsNamed c
IsTyped-IsNamed fl null h = tt
IsTyped-IsNamed fl (node it c n) (h, hs) = (h.named, IsTyped-IsNamed fl n hs)

-- What the loop finds in a typed chain has its type, and passed the test.
find_item-HasType :
    (fl : Floats) (key : Bytes) (want : Item → Bool) (c : CJson) (i : ℕ) (x : Item) (k : CJson)
    → IsTyped fl c
    → find_item key want c ≡ ok (some (i, x, k))
    → HasType fl x × (want x ≡ true)
unfolding find_item
find_item-HasType fl key want null i x k h e = cc
find_item-HasType fl key want (node it c n) i x k (h, hs) e =
    let (s, z) = h.named in
    elim (Bool-cases (str_eq key s && want it)) [
      | inl hit ↦
          let same : it ≡ x = cc (rw (z, hit) at e) in
          subst (λ y. HasType fl y × (want y ≡ true)) same (h, ((&&_iff _ _).0 hit).1)
      | inr miss ↦
          let (r, q) = find_item-total key want n (IsTyped-IsNamed fl n hs) in
          elim (Option-cases r) [
            | inl gone ↦ cc (rw (z, miss, q, gone) at e)
            | inr ((j, y, l), there) ↦
                let same : y ≡ x = cc (rw (z, miss, q, there) at e) in
                subst (λ w. HasType fl w × (want w ≡ true)) same
                  (find_item-HasType fl key want n j y l hs (q ∙ ap ok there))
          ]
    ]

-- What the getters give: nothing faults, and the two getters of numbers agree.
pub record Reads (fl : Floats) (o : CJson) (key : Bytes) : Type 0 where
  pub double : Option Double
  pub text : Option Bytes
  pub truth : Option Bool
  pub double_read : get_attribute_value_double o key ≡ ok double
  pub int_read :
      get_attribute_value_int o key ≡ ok (elim double [ none ↦ none | some d ↦ some (fl.to_int d) ])
  pub text_read : get_attribute_value_string o key ≡ ok text
  pub truth_read : get_attribute_value_bool o key ≡ ok truth

module _ (fl : Floats) (it : Item) (c n : CJson) (key : Bytes) where
  -- The search of a getter on a typed object.
  pub found :
      (own want : Item → Bool)
      → own it ≡ false
      → IsTypedObject fl (node it c n)
      → (search_for own key want (node it c n) ≡ ok none)
        ⊎ ((i : ℕ) × (x : Item) × (k : CJson) × (search_for own key want (node it c n)
              ≡ ok (some (i, x, k)))
            × HasType fl x
            × (want x ≡ true))
  found own want h (e, t) =
      let (r, q) = find_item-total key want c (IsTyped-IsNamed fl c t) in
      let at = search_for-object own key want it c n h e ∙ q in
      elim (Option-cases r) [
        | inl z ↦ inl (at ∙ ap ok z)
        | inr ((i, x, k), z) ↦
            let (typed, wanted) = find_item-HasType fl key want c i x k t (q ∙ ap ok z) in
            inr (i, x, k, at ∙ ap ok z, typed, wanted)
      ]

  numbers_read :
      IsTypedObject fl (node it c n)
      → (d : Option Double) × (get_attribute_value_double (node it c n) key ≡ ok d)
        × (get_attribute_value_int (node it c n) key
            ≡ ok (elim d [ none ↦ none | some v ↦ some (fl.to_int v) ]))
  unfolding get_attribute_value_int get_attribute_value_double
  numbers_read t =
      let number = is_kind cjson_number in
      elim (found number number (ground (arith, t.0)) t) [
        | inl z ↦ (none, rw z refl, rw z refl)
        | inr (i, x, k, z, typed, wanted) ↦ (
          some x.valuedouble,
          rw z refl,
          rw z (ap (λ v. ok (some v)) (typed.number (sym ((==_iff 3 x.kind).0 wanted)))),
        )
      ]

  text_read :
      IsTypedObject fl (node it c n)
      → (r : Option Bytes) × (get_attribute_value_string (node it c n) key ≡ ok r)
  unfolding get_attribute_value_string
  text_read t =
      let text = is_kind cjson_string in
      elim (found text text (ground (arith, t.0)) t) [
        | inl z ↦ (none, rw z refl)
        | inr (i, x, k, z, typed, wanted) ↦
            let (s, held) = typed.text (sym ((==_iff 4 x.kind).0 wanted)) in
            (some s, rw z (rw held refl))
      ]

  truth_read :
      IsTypedObject fl (node it c n)
      → (r : Option Bool) × (get_attribute_value_bool (node it c n) key ≡ ok r)
  unfolding get_attribute_value_bool
  truth_read t = elim (found is_bool (λ x. true) (ground (arith, t.0)) t) [
    | inl z ↦ (none, rw z refl)
    | inr (i, x, k, z, typed, wanted) ↦ (
      if is_kind cjson_true x
          then some true
          else if is_kind cjson_false x
          then some false
          else none,
      rw z refl,
    )
  ]

  pub typed-Reads : IsTypedObject fl (node it c n) → Reads fl (node it c n) key
  typed-Reads t =
      let (d, double, int) = numbers_read t in
      let (s, text) = text_read t in
      let (b, truth) = truth_read t in
      record {
        double = d;
        text = s;
        truth = b;
        double_read = double;
        int_read = int;
        text_read = text;
        truth_read = truth;
      }
