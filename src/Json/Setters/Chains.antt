-- ===== src/Json/Setters/Chains.antt =====
-- What the loop `find_item` sees of a chain in which an item was replaced or appended.
use protobuf_sandbox.Prelude.{
  ℕ, zero, suc, ◌≡◌, refl, Bool, true, false, ◌&&◌, Option, none, some, arith, Bool-cases,
  Option-cases, Bytes, str_eq, str_eq_iff, str_eq_self, Run, ok, fault, inl, inr,
}
use protobuf_sandbox.Json.Node.{
  Item, CJson, null, node, append, replace_first, position, size, IsNamed,
}
use protobuf_sandbox.Json.Library.{CJsonLib, has_name, renamed}
use protobuf_sandbox.Json.Getters.{find_item}

-- The loop has stopped at an item.
abbrev pub has_found {ℓ} : {A : Type ℓ} → Run (Option A) → Bool
has_found fault = false
has_found (ok none) = false
has_found (ok (some x)) = true

-- The loop ends without a fault on a chain of named items.
pub find_item-total :
    (key : Bytes) (want : Item → Bool) (c : CJson)
    → IsNamed c
    → (r : Option (ℕ × Item × CJson)) × (find_item key want c ≡ ok r)
unfolding find_item
find_item-total key want null h = (none, refl)
find_item-total key want (node it c n) ((s, e), h) =
    let (r, q) = find_item-total key want n h in
    elim (Bool-cases (str_eq key s && want it)) [
      | inl hit ↦ (some (zero, it, c), ground arith)
      | inr miss ↦ elim (Option-cases r) [
        | inl z ↦ (none, ground arith)
        | inr ((i, x, k), z) ↦ (some (suc i, x, k), ground arith)
      ]
    ]

module _ (lib : CJsonLib) (key : Bytes) where
  -- A name that is the same as `key` up to case is not `k`, if `k` is not.
  pub str_ne : (k s : Bytes) → lib.same k key ≡ false → lib.same s key ≡ true → str_eq k s ≡ false
  str_ne k s ne h = elim (Bool-cases (str_eq k s)) [ inl e ↦ cc ((str_eq_iff k s).0 e) | inr e ↦ e ]

  pub str_eq-same : (s : Bytes) → lib.same s key ≡ false → str_eq key s ≡ false
  str_eq-same s ne = elim (Bool-cases (str_eq key s)) [
    | inl e ↦ cc ((str_eq_iff key s).0 e, lib.same_refl key)
    | inr e ↦ e
  ]

  -- Other names are found as before where the item under `key` is replaced.
  pub find_item-replace_ne :
      (new : Item) (kids : CJson) (k : Bytes) (want : Item → Bool) (c : CJson)
      → lib.same k key ≡ false
      → find_item k want (replace_first (has_name lib.same key) (renamed key new) kids c)
        ≡ find_item k want c
  unfolding find_item replace_first
  find_item-replace_ne new kids k want null ne = refl
  find_item-replace_ne new kids k want (node it c n) ne = elim (Option-cases it.name) [
    | inl e ↦ ground arith
    | inr (s, e) ↦ ground (
      arith,
      str_ne k key ne (lib.same_refl key),
      str_ne k s ne,
      find_item-replace_ne new kids k want n ne,
    )
  ]

  pub find_item-append_ne :
      (new : Item) (kids : CJson) (k : Bytes) (want : Item → Bool) (c : CJson)
      → lib.same k key ≡ false
      → find_item k want (append c (node (renamed key new) kids null)) ≡ find_item k want c
  unfolding find_item append
  find_item-append_ne new kids k want null ne = ground (arith, str_ne k key ne (lib.same_refl key))
  find_item-append_ne new kids k want (node it c n) ne =
      ground (arith, find_item-append_ne new kids k want n ne)

  -- The replaced item is the first under the name, and passes any test that it meets.
  pub find_item-replace_self :
      (new : Item) (kids : CJson) (want wanted : Item → Bool) (c : CJson)
      → has_found (find_item key want c) ≡ true
      → wanted (renamed key new) ≡ true
      → find_item key wanted (replace_first (has_name lib.same key) (renamed key new) kids c)
        ≡ ok (some (position (has_name lib.same key) c, renamed key new, kids))
  unfolding find_item replace_first position
  find_item-replace_self new kids want wanted null e w = cc
  find_item-replace_self new kids want wanted (node it c n) e w = elim (Option-cases it.name) [
    | inl z ↦ ground arith
    | inr (s, z) ↦
        ground
          (arith, str_eq_self key, str_eq-same s, find_item-replace_self new kids want wanted n)
  ]

  pub find_item-append_self :
      (new : Item) (kids : CJson) (want : Item → Bool) (c : CJson)
      → find_item key want c ≡ ok none
      → want (renamed key new) ≡ true
      → find_item key want (append c (node (renamed key new) kids null))
        ≡ ok (some (size c, renamed key new, kids))
  unfolding find_item append size
  find_item-append_self new kids want null e w = ground (arith, str_eq_self key)
  find_item-append_self new kids want (node it c n) e w =
      ground (arith, find_item-append_self new kids want n)
