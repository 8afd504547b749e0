-- ===== src/Json/Merge/Loop.antt =====
-- When the loop of `mergeJSONObjects` ends, and what it leaves alone.
use protobuf_sandbox.Prelude.{
  ℕ, zero, suc, ◌≡◌, refl, Bool, true, false, Option, none, some, [], ◌∷◌, arith, ◌≤◌, Option-cases,
  Bytes, inl, inr, ◌⊎◌, ok, >>=_through,
}
use protobuf_sandbox.Json.Node.{Item, CJson, null, node, size}
use protobuf_sandbox.Json.Library.{CJsonLib}
use protobuf_sandbox.Json.Setters.Stores.{any_item}
use protobuf_sandbox.Json.Setters.Put.{IsObject, Put}
use protobuf_sandbox.Json.Setters.RoundTrip.{SameAt, SameAt-of_others, SameAt-trans}
use protobuf_sandbox.Json.Merge.{Printer, returned, put_item_copy, merge_loop, merge_json_objects}
use protobuf_sandbox.Json.Merge.Copies.{IsCopyable, put_item_copy-Put}

-- Each item of the chain has a name that is not empty.
abbrev pub HasNames : CJson → Type 0
HasNames null = Unit {0}
HasNames (node it c n) = ((b : ℕ) × (s : Bytes) × (it.name ≡ some (b ∷ s))) × HasNames n

module _ (lib : CJsonLib) (pr : Printer) where
  merge_loop-HasNames :
      (fuel : ℕ) (target source t : CJson)
      → merge_loop lib pr fuel target source ≡ ok (returned t true)
      → HasNames source
  unfolding merge_loop
  merge_loop-HasNames fuel target null t e = tt
  merge_loop-HasNames zero target (node it c n) t e = cc
  merge_loop-HasNames (suc f) target (node it c n) t e =
      let again = merge_loop-HasNames f target (node it c n) t in
      let later = λ (u : CJson). merge_loop-HasNames f u n t in
      elim (Option-cases it.name) [
        | inl z ↦ again (rw (z, merge_loop) at e)
        | inr ([], z) ↦ again (rw (z, merge_loop) at e)
        | inr (b ∷ s, z) ↦
            let (r, p, q) =
              >>=_through _ (put_item_copy lib pr target (b ∷ s) it c n)
                (rw (z, merge_loop) at e) in
            (
              (b, s, z),
              elim (Option-cases r) [ inl y ↦ cc (rw y at q) | inr (u, y) ↦ later u (rw y at q) ],
            )
      ]

  -- If `mergeJSONObjects` returns true on objects, after any number of rounds, then every child of
  -- the source has a name that is not empty: it never gets past one that has none.
  pub merge-HasNames :
      (fuel : ℕ) (target source : Item) (tc tn sc sn t : CJson)
      → merge_json_objects lib pr fuel (node target tc tn) (node source sc sn)
        ≡ ok (returned t true)
      → HasNames sc
  unfolding merge_json_objects
  merge-HasNames fuel target source tc tn sc sn t e =
      merge_loop-HasNames fuel (node target tc tn) sc t e

-- No name of the chain is the same as `k` up to case.
abbrev pub is_same : CJsonLib → Bytes → Option Bytes → Bool
is_same lib k none = false
is_same lib k (some s) = lib.same k s

abbrev pub Avoids : CJsonLib → Bytes → CJson → Type 0
Avoids lib k null = Unit {0}
Avoids lib k (node it c n) = (is_same lib k it.name ≡ false) × Avoids lib k n

abbrev pub AllCopyable : Printer → CJson → Type 0
AllCopyable pr null = Unit {0}
AllCopyable pr (node it c n) = IsCopyable pr it c n × AllCopyable pr n

module _ (lib : CJsonLib) (pr : Printer) (k : Bytes) where
  kept :
      (it : Item) (c c' n : CJson) (key : Bytes)
      → IsObject (node it c n)
      → lib.same k key ≡ false
      → (c' ≡ c) ⊎ ((y : Item) × Put lib key any_item y c c')
      → IsObject (node it c' n) × SameAt k (node it c' n) (node it c n)
  kept it c c' n key (e, h) ne (inl u) =
      (rw u (e, h), SameAt-of_others it c c' n k e (λ want. rw u))
  kept it c c' n key (e, h) ne (inr (y, put)) =
      ((e, put.named), SameAt-of_others it c c' n k e (λ want. put.others k want ne))

  pub merge_loop-ends :
      (source : CJson) (fuel : ℕ) (it : Item) (c n : CJson)
      → size source ≤ fuel
      → IsObject (node it c n)
      → HasNames source
      → AllCopyable pr source
      → Avoids lib k source
      → (t : CJson) × (merge_loop lib pr fuel (node it c n) source ≡ ok (returned t true))
        × IsObject t
        × SameAt k t (node it c n)
  unfolding merge_loop size
  merge_loop-ends null fuel it c n f o names copies avoids =
      (node it c n, refl, o, record { int = refl; double = refl; text = refl; bool = refl })
  merge_loop-ends (node x kids rest) zero it c n f o names copies avoids = absurd (omega arith)
  merge_loop-ends (node x kids rest) (suc fuel) it c n f o ((b, s, z), names) (h, copies)
        (a, avoids) =
      let (c', e, how) = put_item_copy-Put lib pr it c n (b ∷ s) x kids rest o (λ q. cc) h in
      let (o', same) = kept it c c' n (b ∷ s) o (rw z at a) how in
      let (t, loop, ot, st) =
        merge_loop-ends rest fuel it c' n (omega arith) o' names copies avoids in
      (t, rw (z, merge_loop) (rw e loop), ot, SameAt-trans k t _ _ st same)

  -- `mergeJSONObjects` into an object whose children have names, of a source whose children have
  -- names that are not empty and are of the seven types, with a text where one is a string, and where the
  -- parser takes what is printed of the arrays and objects: as many rounds as the source has children suffice, it returns true and leaves such an object, and the
  -- getters read the same as before under a name that no child of the source has, up to case.
  pub merge_returns :
      (fuel : ℕ) (target source : Item) (tc tn sc sn : CJson)
      → size sc ≤ fuel
      → IsObject (node target tc tn)
      → HasNames sc
      → AllCopyable pr sc
      → Avoids lib k sc
      → (t : CJson) × (merge_json_objects lib pr fuel (node target tc tn) (node source sc sn)
          ≡ ok (returned t true))
        × IsObject t
        × SameAt k t (node target tc tn)
  unfolding merge_json_objects
  merge_returns fuel target source tc tn sc sn f o names copies avoids =
      merge_loop-ends sc fuel target tc tn f o names copies avoids
