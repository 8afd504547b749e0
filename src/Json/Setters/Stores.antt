-- ===== src/Json/Setters/Stores.antt =====
-- What the loop `find_item` sees of a chain after a store into one of its items, and what the loop of
-- `doesAttributeExist` sees of the same chain.
use protobuf_sandbox.Prelude.{
  ℕ, zero, suc, ◌≡◌, ◌≢◌, refl, Bool, true, false, none, some, [], ◌∷◌, arith, ◌∙◌, Option-cases,
  Bytes, inl, inr, str_eq, ok,
}
use protobuf_sandbox.Json.Node.{Item, CJson, null, node, edit, append, IsNamed}
use protobuf_sandbox.Json.Getters.{exists_in, find_item}

abbrev pub any_item : Item → Bool
any_item x = true

-- The first item of a name is found by any loop that wants it.
pub find_item-wanted :
    (key : Bytes) (want : Item → Bool) (c : CJson) (i : ℕ) (x : Item) (k : CJson)
    → find_item key any_item c ≡ ok (some (i, x, k))
    → want x ≡ true
    → find_item key want c ≡ ok (some (i, x, k))
unfolding find_item
find_item-wanted key want null i x k e w = cc
find_item-wanted key want (node it c n) zero x k e w = ground arith
find_item-wanted key want (node it c n) (suc i) x k e w =
    ground (arith, find_item-wanted key want n i x k)

pub find_item-none :
    (key : Bytes) (want : Item → Bool) (c : CJson)
    → find_item key any_item c ≡ ok none
    → find_item key want c ≡ ok none
unfolding find_item
find_item-none key want null e = refl
find_item-none key want (node it c n) e = ground (arith, find_item-none key want n)

-- The loop without a test finds what `doesAttributeExist` finds.
pub find_item-exists :
    (key : Bytes) (c : CJson)
    → key ≢ []
    → IsNamed c
    → exists_in key false c ≡ false
    → find_item key any_item c ≡ ok none
unfolding find_item exists_in str_eq
find_item-exists key null ne h e = refl
find_item-exists [] (node it c n) ne h e = absurd (ne refl)
find_item-exists (b ∷ key) (node it c n) ne ((s, z), h) e =
    named s z (find_item-exists (b ∷ key) n ne h)
  where
    named :
        (s : Bytes)
        → it.name ≡ some s
        → (exists_in (b ∷ key) false n ≡ false → find_item (b ∷ key) any_item n ≡ ok none)
        → find_item (b ∷ key) any_item (node it c n) ≡ ok none
    named [] z rest = ground (arith, rest)
    named (d ∷ s) z rest = ground (arith, rest)

pub exists_in-none :
    (key : Bytes) (c : CJson) → find_item key any_item c ≡ ok none → exists_in key false c ≡ false
unfolding find_item exists_in str_eq
exists_in-none key null e = refl
exists_in-none key (node it c n) e = elim (Option-cases it.name) [
  | inl z ↦ ground arith
  | inr ([], z) ↦ ground (arith, exists_in-none key n)
  | inr (d ∷ s, z) ↦ ground (arith, exists_in-none key n)
]

-- A store into the first item of the name, and one into another item, seen by the getter's loop.
pub find_item-edit_self :
    (key : Bytes) (f : Item → Item) (c : CJson) (i : ℕ) (x : Item) (k : CJson)
    → ((y : Item) → (f y).name ≡ y.name)
    → find_item key any_item c ≡ ok (some (i, x, k))
    → find_item key any_item (edit i f c) ≡ ok (some (i, f x, k))
unfolding find_item edit
find_item-edit_self key f null i x k keep e = cc
find_item-edit_self key f (node it c n) zero x k keep e = ground (arith, keep it)
find_item-edit_self key f (node it c n) (suc i) x k keep e =
    ground (arith, find_item-edit_self key f n i x k keep)

pub find_item-append_found :
    (key : Bytes) (c m : CJson) (i : ℕ) (x : Item) (k : CJson)
    → find_item key any_item c ≡ ok (some (i, x, k))
    → find_item key any_item (append c m) ≡ ok (some (i, x, k))
unfolding find_item append
find_item-append_found key null m i x k e = cc
find_item-append_found key (node it c n) m zero x k e = ground arith
find_item-append_found key (node it c n) m (suc i) x k e =
    ground (arith, find_item-append_found key n m i x k)

-- The setter's loop stops behind an item of the name that it does not want.
pub find_item-edit_later :
    (key : Bytes) (want : Item → Bool) (f : Item → Item) (c : CJson) (i j : ℕ) (x y : Item)
    (k l : CJson)
    → find_item key any_item c ≡ ok (some (i, x, k))
    → want x ≡ false
    → find_item key want c ≡ ok (some (j, y, l))
    → find_item key any_item (edit j f c) ≡ ok (some (i, x, k))
unfolding find_item edit
find_item-edit_later key want f null i j x y k l e w g = cc
find_item-edit_later key want f (node it c n) zero zero x y k l e w g = ground arith
find_item-edit_later key want f (node it c n) zero (suc j) x y k l e w g = ground arith
find_item-edit_later key want f (node it c n) (suc i) zero x y k l e w g = ground arith
find_item-edit_later key want f (node it c n) (suc i) (suc j) x y k l e w g =
    ground (arith, find_item-edit_later key want f n i j x y k l)

pub IsNamed-edit :
    (f : Item → Item) (c : CJson) (i : ℕ)
    → ((y : Item) → (f y).name ≡ y.name)
    → IsNamed c
    → IsNamed (edit i f c)
unfolding edit
IsNamed-edit f null i keep h = tt
IsNamed-edit f (node it c n) zero keep ((s, z), h) = ((s, keep it ∙ z), h)
IsNamed-edit f (node it c n) (suc i) keep (z, h) = (z, IsNamed-edit f n i keep h)
