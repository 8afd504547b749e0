-- ===== src/Json/Access/Keys.antt =====
-- `getKey` beside `doesAttributeExist`, and `asDouble` beside `getAttributeValue_Double`.
use protobuf_sandbox.Prelude.{
  ◌≡◌, ◌≢◌, refl, sym, ap, ◌∙◌, Bool, true, false, none, some, [], ◌∷◌, ◌++◌, arith, Bool-cases,
  inl, inr, ◌⊎◌, Bytes, codes, str_eq, str_eq_iff, ok, fault, subst, if◌then◌else◌, ◌||◌, ◌&&◌,
}
use protobuf_sandbox.Json.Node.{Item, CJson, null, node, IsNamed, is_container}
use protobuf_sandbox.Json.Getters.{named_as, exists_in, does_attribute_exist}
use protobuf_sandbox.Json.Setters.Put.{IsObject}
use protobuf_sandbox.Json.Setters.Truth.{does_attribute_exist-object}
use protobuf_sandbox.Json.Access.{walk_to, get_key, value, throw}

str_eq_sym : (a b : Bytes) → str_eq a b ≡ str_eq b a
unfolding str_eq
str_eq_sym [] [] = refl
str_eq_sym [] (y ∷ b) = refl
str_eq_sym (x ∷ a) [] = refl
str_eq_sym (x ∷ a) (y ∷ b) = ground (arith, str_eq_sym a b)

named_as-str_eq : (key s : Bytes) → key ≢ [] → named_as key (some s) ≡ str_eq s key
unfolding str_eq
named_as-str_eq [] s h = absurd (h refl)
named_as-str_eq (k ∷ key) [] h = refl
named_as-str_eq (k ∷ key) (c ∷ s) h = str_eq_sym (k ∷ key) (c ∷ s)

-- Where the walk ends, by whether the name is there.
abbrev Walks : Bytes → CJson → Bool → Type 0
Walks key c true =
    (x : Item) × (kids : CJson) × (rest : CJson) × (walk_to key c ≡ ok (node x kids rest))
    × (x.name ≡ some key)
Walks key c false = walk_to key c ≡ ok null

no_descent : (a m : Bool) → (a && false && m) ≡ false
no_descent true m = refl
no_descent false m = refl

or_false : (b m : Bool) → (b || false || m) ≡ (b || m)
or_false true m = refl
or_false false m = refl

exists_in-next :
    (key : Bytes) (it : Item) (c n : CJson) (s : Bytes) (b : Bool)
    → key ≢ []
    → it.name ≡ some s
    → str_eq s key ≡ b
    → exists_in key false (node it c n) ≡ (b || exists_in key false n)
unfolding exists_in
exists_in-next key it c n s b ne z e =
    ap (λ u. u || (is_container it && false && exists_in key false c) || exists_in key false n)
      (ap (named_as key) z ∙ named_as-str_eq key s ne ∙ e)
    ∙ ap (λ u. b || u || exists_in key false n)
        (no_descent (is_container it) (exists_in key false c))
    ∙ or_false b (exists_in key false n)

walk_to-next :
    (key : Bytes) (it : Item) (c n : CJson) (s : Bytes) (b : Bool)
    → it.name ≡ some s
    → str_eq s key ≡ b
    → walk_to key (node it c n) ≡ (if b then ok (node it c n) else walk_to key n)
unfolding walk_to
walk_to-next key it c n s b z e =
    ap (elim [ none ↦ fault | some t ↦ if str_eq t key then ok (node it c n) else walk_to key n ]) z
    ∙ ap (λ u. if u then ok (node it c n) else walk_to key n) e

walk_to-Walks :
    (key : Bytes) (c : CJson) → key ≢ [] → IsNamed c → Walks key c (exists_in key false c)
unfolding exists_in walk_to
walk_to-Walks key null ne h = refl
walk_to-Walks key (node it c n) ne ((s, z), h) =
    subst (Walks key (node it c n)) (sym (exists_in-next key it c n s (str_eq s key) ne z refl))
      (go (str_eq s key) refl (exists_in key false n) (walk_to-Walks key n ne h))
  where
    go :
        (b : Bool)
        → str_eq s key ≡ b
        → (later : Bool) → Walks key n later
        → Walks key (node it c n) (b || later)
    go true e later w =
        (it, c, n, walk_to-next key it c n s true z e, z ∙ ap some ((str_eq_iff s key).0 e))
    go false e true (x, kids, rest, w, m) =
        (x, kids, rest, walk_to-next key it c n s false z e ∙ w, m)
    go false e false w = walk_to-next key it c n s false z e ∙ w

-- On an object with named children and for a key that is not empty, `doesAttributeExist` tells what
-- `getKey` does: where it is true, `getKey` returns an item of that name, and where it is false,
-- `getKey` throws `key ... not found`.
pub get_key-does_attribute_exist :
    (o : CJson) (key : Bytes)
    → IsObject o
    → key ≢ []
    → ((does_attribute_exist o key false ≡ ok true)
        × (x : Item) × (kids : CJson) × (rest : CJson) × (get_key o key
            ≡ ok (value (node x kids rest)))
        × (x.name ≡ some key))
      ⊎ ((does_attribute_exist o key false ≡ ok false)
          × (get_key o key ≡ ok (throw o (codes "key " ++ key ++ codes " not found"))))
unfolding get_key
get_key-does_attribute_exist null key h ne = absurd h
get_key-does_attribute_exist (node it c n) key (e, h) ne =
    let there = does_attribute_exist-object it c n key false e in
    let walked = walk_to-Walks key c ne h in
    elim (Bool-cases (exists_in key false c)) [
      | inl u ↦
          let (x, kids, rest, w, m) = subst (Walks key c) u walked in
          inl (there ∙ ap ok u, x, kids, rest, ground (arith, w, e), m)
      | inr v ↦ let w = subst (Walks key c) v walked in inr (there ∙ ap ok v, ground (arith, w, e))
    ]
