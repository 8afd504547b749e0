-- ===== src/Json/Setters/Put.antt =====
-- `put_item` on an object with named children: what the loops find there afterwards.
use protobuf_sandbox.Prelude.{
  ℕ, ◌≡◌, refl, Bool, true, false, none, some, arith, Option-cases, ap, ◌∙◌, if◌then◌else◌, Bytes,
  c_str, ok, inl, inr,
}
use protobuf_sandbox.Json.Node.{
  Item, CJson, null, node, cjson_object, is_kind, append, replace_first, position, size, IsNamed,
}
use protobuf_sandbox.Json.Library.{CJsonLib, has_name, renamed}
use protobuf_sandbox.Json.Getters.{Place, place, find_item, search_for}
use protobuf_sandbox.Json.Setters.{put_item}
use protobuf_sandbox.Json.Setters.Chains.{
  has_found, find_item-total, find_item-replace_ne, find_item-append_ne, find_item-replace_self,
  find_item-append_self,
}

-- An object whose children all have names, as the parser and the helpers build it.
abbrev pub IsObject : CJson → Type 0
IsObject null = ⊥
IsObject (node it c n) = (it.kind ≡ cjson_object) × IsNamed c

pub search_for-object :
    (own : Item → Bool) (key : Bytes) (want : Item → Bool) (it : Item) (c n : CJson)
    → own it ≡ false
    → it.kind ≡ cjson_object
    → search_for own key want (node it c n) ≡ find_item key want c
unfolding search_for
search_for-object own key want it c n h e = ground arith

pub place-object :
    (own : Item → Bool) (it : Item)
    → own it ≡ false
    → it.kind ≡ cjson_object
    → place own it ≡ Place.below
unfolding place
place-object own it h e = ground arith

pub IsNamed-append :
    (c : CJson) (k : Bytes) (new : Item) (kids : CJson)
    → IsNamed c
    → IsNamed (append c (node (renamed k new) kids null))
unfolding append
IsNamed-append null k new kids h = ((k, refl), tt)
IsNamed-append (node it c n) k new kids h = (h.0, IsNamed-append n k new kids h.1)

IsNamed-replace_first :
    (p : Item → Bool) (c : CJson) (k : Bytes) (new : Item) (kids : CJson)
    → IsNamed c
    → IsNamed (replace_first p (renamed k new) kids c)
unfolding replace_first
IsNamed-replace_first p null k new kids h = tt
IsNamed-replace_first p (node it c n) k new kids h =
    split (p it) (IsNamed-replace_first p n k new kids h.1)
  where
    split :
        (b : Bool)
        → IsNamed (replace_first p (renamed k new) kids n)
        → IsNamed (
            if b
            then node (renamed k new) kids n
            else node it c (replace_first p (renamed k new) kids n))
    split true r = ((k, refl), h.1)
    split false r = (h.0, r)

-- The chain `c'` holds the item `x` under `key`, where a loop that wants such items finds it, and
-- other names are found there as in `c`.
pub record Put (lib : CJsonLib) (key : Bytes) (want : Item → Bool) (x : Item) (c c' : CJson)
    : Type 0 where
  pub named : IsNamed c'
  pub index : ℕ
  pub kids : CJson
  pub held : find_item key want c' ≡ ok (some (index, x, kids))
  pub others :
      (k : Bytes) (wanted : Item → Bool)
      → lib.same k key ≡ false
      → find_item k wanted c' ≡ find_item k wanted c

module _ (lib : CJsonLib) (key : Bytes) (new : Item) (kids : CJson) (want : Item → Bool) where
  pub append-Put :
      (c : CJson)
      → find_item key want c ≡ ok none
      → want (renamed key new) ≡ true
      → IsNamed c
      → Put lib key want (renamed key new) c (append c (node (renamed key new) kids null))
  append-Put c e w h = record {
    named = IsNamed-append c key new kids h;
    index = size c;
    kids = kids;
    held = find_item-append_self lib key new kids want c e w;
    others = λ k wanted ne. find_item-append_ne lib key new kids k wanted c ne;
  }

  pub replace_first-Put :
      (c : CJson)
      → has_found (find_item key want c) ≡ true
      → want (renamed key new) ≡ true
      → IsNamed c
      → Put lib key want
          (renamed key new)
          c
          (replace_first (has_name lib.same key) (renamed key new) kids c)
  replace_first-Put c e w h = record {
    named = IsNamed-replace_first (has_name lib.same key) c key new kids h;
    index = position (has_name lib.same key) c;
    kids = kids;
    held = find_item-replace_self lib key new kids want want c e w;
    others = λ k wanted ne. find_item-replace_ne lib key new kids k wanted c ne;
  }

-- On an object `put_item` comes to one of the two, and returns true.
pub put_item-Put :
    (lib : CJsonLib) (kind : ℕ) (it : Item) (c n : CJson) (key : Bytes) (new : Item)
    → is_kind kind it ≡ false
    → IsObject (node it c n)
    → c_str key ≡ key
    → is_kind kind new ≡ true
    → (c' : CJson) × (put_item lib kind (node it c n) key (node new null null)
        ≡ ok (node it c' n, true))
      × Put lib key (is_kind kind) (renamed key new) c c'
unfolding put_item
put_item-Put lib kind it c n key new k (e, h) text w =
    let (r, q) = find_item-total key (is_kind kind) c h in
    let s = search_for-object (is_kind kind) key (is_kind kind) it c n k e ∙ q in
    elim (Option-cases r) [
      | inl z ↦ (
        append c (node (renamed key new) null null),
        rw (s, z) (rw text (rw (lib.add_lem it c n key new null))),
        append-Put lib key new null (is_kind kind) c (q ∙ ap ok z) w h,
      )
      | inr (x, z) ↦ (
        replace_first (has_name lib.same key) (renamed key new) null c,
        rw (s, z) (rw (lib.replace_lem it c n key new null)),
        replace_first-Put lib key new null (is_kind kind) c (ground arith) w h,
      )
    ]
