-- ===== src/Json/Merge/Copies.antt =====
-- One item put into an object by `mergeJSONObjects` or `copyItem`.
use protobuf_sandbox.Prelude.{
  ◌≡◌, ◌≢◌, refl, sym, Bool, true, false, Option, none, some, [], ◌∷◌, arith, ap, ◌∙◌, ◌≤◌,
  Option-cases, Bool-cases, Bytes, inl, inr, ◌⊎◌, ok, if◌then◌else◌, ◌==◌, ==_iff, Run,
}
use protobuf_sandbox.Json.Node.{
  Item, CJson, null, node, cjson_object, append, replace_first, cjson_string, is_container,
  cjson_false, cjson_true, cjson_null, cjson_number,
}
use protobuf_sandbox.Json.Library.{CJsonLib, has_name, renamed}
use protobuf_sandbox.Json.Getters.{exists_in}
use protobuf_sandbox.Json.Setters.Chains.{find_item-total, has_found}
use protobuf_sandbox.Json.Setters.Stores.{any_item, find_item-exists, exists_in-none}
use protobuf_sandbox.Json.Setters.Truth.{does_attribute_exist-object}
use protobuf_sandbox.Json.Setters.Put.{IsObject, Put, append-Put, replace_first-Put}
use protobuf_sandbox.Json.Merge.{Printer, Copied, copy_of, put_copy, put_item_copy, reparse}

-- The item has one of the seven types, a string has its text, and the parser takes what is printed of
-- an array or an object.
pub record IsCopyable (pr : Printer) (it : Item) (kids rest : CJson) : Type 0 where
  pub typed : it.kind ≤ cjson_object
  pub has_text : (it.kind ≢ cjson_string) ⊎ (it.valuestring ≢ none)
  pub parses :
      is_container it ≡ true
      → (s : Bytes) → pr.print (node it kids rest) ≡ some s
      → pr.parse s ≢ null

module _ (lib : CJsonLib) (it : Item) (c n : CJson) (key : Bytes) where
  -- In an object the copy is found first under the key, and other names are found as before.
  pub put_copy-Put :
      (new : Item) (kids : CJson)
      → IsObject (node it c n)
      → key ≢ []
      → (c' : CJson) × (put_copy lib (node it c n) key (node new kids null) ≡ ok (node it c' n))
        × Put lib key any_item (renamed key new) c c'
  unfolding put_copy
  put_copy-Put new kids (e, h) ne =
      let (r, q) = find_item-total key any_item c h in
      let there = does_attribute_exist-object it c n key false e in
      elim (Bool-cases (exists_in key false c)) [
        | inl old ↦ (
          replace_first (has_name lib.same key) (renamed key new) kids c,
          rw (there, old) (rw (lib.replace_lem it c n key new kids)),
          replace_first-Put lib key new kids any_item c
              (elim (Option-cases r) [
                | inl z ↦ cc (old, exists_in-none key c (q ∙ ap ok z))
                | inr (x, z) ↦ ap has_found (q ∙ ap ok z)
              ])
              refl h,
        )
        | inr fresh ↦ (
          append c (node (renamed key new) kids null),
          rw (there, fresh) (rw (lib.add_lem it c n key new kids)),
          append-Put lib key new kids any_item c (find_item-exists key c ne h fresh) refl h,
        )
      ]

-- What there is to copy of a copyable item: an item of its own, or nothing.
pub data Copies : Copied → Type 0 where
  one : (x : Item) (kids : CJson) {w : Copied} → w ≡ Copied.copy (node x kids null) → Copies w
  skip : {w : Copied} → w ≡ Copied.nothing → Copies w

reparse-Copies :
    (pr : Printer) (x : CJson) (s : Option Bytes)
    → ((b : Bytes) → pr.print x ≡ some b → pr.parse b ≢ null)
    → pr.print x ≡ s
    → Copies (reparse pr s)
unfolding reparse
reparse-Copies pr x none h e = skip refl
reparse-Copies pr x (some []) h e = skip refl
reparse-Copies pr x (some (b ∷ s)) h e = elim (pr.parse_lem (b ∷ s)) [
  | inl z ↦ absurd (h (b ∷ s) e z)
  | inr (it, kids, q) ↦ one it kids (ap Copied.copy q)
]

abbrev Yields : Run Copied → Type 0
Yields m = (w : Copied) × (m ≡ ok w) × Copies w

Yields-if :
    (b : Bool) {u m : Run Copied}
    → (b ≡ true → Yields u)
    → (b ≡ false → Yields m)
    → Yields (if b then u else m)
Yields-if true yes_case no_case = yes_case refl
Yields-if false yes_case no_case = no_case refl

pub copy_of-Copies :
    (lib : CJsonLib) (pr : Printer) (x : Item) (kids rest : CJson)
    → IsCopyable pr x kids rest
    → (w : Copied) × (copy_of lib pr x kids rest ≡ ok w) × Copies w
unfolding copy_of
copy_of-Copies lib pr x kids rest h =
    Yields-if (cjson_false == x.kind) (λ k. made lib.create_false_lem)
      λ k0.
        Yields-if (cjson_true == x.kind) (λ k. made lib.create_true_lem)
          λ k1.
            Yields-if (cjson_null == x.kind) (λ k. made lib.create_null_lem)
              λ k2.
                Yields-if (cjson_number == x.kind) (λ k. made (lib.create_number_lem x.valuedouble))
                  λ k3.
                    Yields-if (cjson_string == x.kind)
                      (λ k. elim (Option-cases x.valuestring) [
                        | inl z ↦ elim h.has_text [
                          | inl other ↦ absurd (other (sym ((==_iff 4 x.kind).0 k)))
                          | inr there ↦ absurd (there z)
                        ]
                        | inr (s, z) ↦ rw z (made (lib.create_string_lem s))
                      ])
                      λ k4.
                        Yields-if (is_container x)
                          (λ k. (_, refl, reparse-Copies pr (node x kids rest) _ (h.parses k) refl))
                          λ k. absurd (untyped k0 k1 k2 k3 k4 k)
  where
    made : {m : CJson} {y : Item} → m ≡ node y null null → Yields (ok (Copied.copy m))
    made {m} {y} e = (Copied.copy m, refl, one y null (ap Copied.copy e))

    untyped :
        (cjson_false == x.kind) ≡ false
        → (cjson_true == x.kind) ≡ false
        → (cjson_null == x.kind) ≡ false
        → (cjson_number == x.kind) ≡ false
        → (cjson_string == x.kind) ≡ false
        → is_container x ≡ false
        → ⊥
    untyped k0 k1 k2 k3 k4 k = ground (arith, h.typed)

-- So it is put: the pass over one source item, when the target is an object.
pub put_item_copy-Put :
    (lib : CJsonLib) (pr : Printer) (it : Item) (c n : CJson) (key : Bytes) (x : Item)
    (kids rest : CJson)
    → IsObject (node it c n)
    → key ≢ []
    → IsCopyable pr x kids rest
    → (c' : CJson) × (put_item_copy lib pr (node it c n) key x kids rest ≡ ok (some (node it c' n)))
      × ((c' ≡ c) ⊎ ((y : Item) × Put lib key any_item y c c'))
unfolding put_item_copy
put_item_copy-Put lib pr it c n key x kids rest o ne h =
    let (w, q, copies) = copy_of-Copies lib pr x kids rest h in cases w q copies
  where
    cases :
        (w : Copied)
        → copy_of lib pr x kids rest ≡ ok w
        → Copies w
        → (c' : CJson) × (put_item_copy lib pr (node it c n) key x kids rest
            ≡ ok (some (node it c' n)))
          × ((c' ≡ c) ⊎ ((y : Item) × Put lib key any_item y c c'))
    cases w q (one y k e) =
        let (c', p, put) = put_copy-Put lib it c n key y k o ne in
        (c', rw (q, e) (rw p), inr (renamed key y, put))
    cases w q (skip e) = (c, rw (q, e), inl refl)
