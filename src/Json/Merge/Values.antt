-- ===== src/Json/Merge/Values.antt =====
-- The values that `mergeJSONObjects` and `copyItem` bring over.
use protobuf_sandbox.Prelude.{
  ℕ, zero, suc, ◌≡◌, ◌≢◌, refl, sym, true, some, [], ◌∷◌, arith, ◌∙◌, ◌≤◌, Bytes, inl, inr, ◌⊎◌, ok,
}
use protobuf_sandbox.Json.Node.{
  Item, CJson, null, node, size, append, cjson_number, cjson_string, cjson_object, is_kind,
}
use protobuf_sandbox.Json.Library.{CJsonLib, number_item, string_item, renamed}
use protobuf_sandbox.Json.Getters.{get_attribute_value_double, get_attribute_value_string}
use protobuf_sandbox.Json.Setters.Stores.{any_item, find_item-wanted}
use protobuf_sandbox.Json.Setters.Put.{IsObject, Put, search_for-object}
use protobuf_sandbox.Json.Setters.RoundTrip.{SameAt}
use protobuf_sandbox.Json.Merge.{
  Printer, Copied, returned, copy_of, put_item_copy, merge_loop, merge_json_objects, copy_item,
}
use protobuf_sandbox.Json.Merge.Copies.{put_copy-Put, put_item_copy-Put}
use protobuf_sandbox.Json.Merge.Loop.{HasNames, AllCopyable, Avoids, merge_loop-ends}

module _ (lib : CJsonLib) (pr : Printer) where
  -- The item is copied as the item `y`, without children.
  abbrev CopiedAs : Item → CJson → CJson → Item → Type 0
  CopiedAs x kids rest y = copy_of lib pr x kids rest ≡ ok (Copied.copy (node y null null))

  number-CopiedAs :
      (x : Item) (kids rest : CJson)
      → x.kind ≡ cjson_number
      → CopiedAs x kids rest (number_item lib.floats x.valuedouble)
  unfolding copy_of
  number-CopiedAs x kids rest e = rw e (rw (lib.create_number_lem x.valuedouble))

  string-CopiedAs :
      (x : Item) (kids rest : CJson) (s : Bytes)
      → x.kind ≡ cjson_string
      → x.valuestring ≡ some s
      → CopiedAs x kids rest (string_item s)
  unfolding copy_of
  string-CopiedAs x kids rest s e z = rw (e, z) (rw (lib.create_string_lem s))

  put_item_copy-as :
      (it : Item) (c n : CJson) (key : Bytes) (x : Item) (kids rest : CJson) (y : Item)
      → IsObject (node it c n)
      → key ≢ []
      → CopiedAs x kids rest y
      → (c' : CJson) × (put_item_copy lib pr (node it c n) key x kids rest
          ≡ ok (some (node it c' n)))
        × Put lib key any_item (renamed key y) c c'
  unfolding put_item_copy
  put_item_copy-as it c n key x kids rest y o ne made =
      let (c', p, put) = put_copy-Put lib it c n key y null o ne in (c', rw made (rw p), put)

  Put-reads_double :
      (it : Item) (c c' n : CJson) (key : Bytes) (x : Item)
      → it.kind ≡ cjson_object
      → Put lib key any_item x c c'
      → x.kind ≡ cjson_number
      → get_attribute_value_double (node it c' n) key ≡ ok (some x.valuedouble)
  unfolding get_attribute_value_double
  Put-reads_double it c c' n key x e put k =
      let number = is_kind cjson_number in
      rw (
        search_for-object number key number it c' n (ground arith) e
        ∙ find_item-wanted key number c' put.index x put.kids put.held (ground arith))

  Put-reads_string :
      (it : Item) (c c' n : CJson) (key : Bytes) (x : Item) (s : Bytes)
      → it.kind ≡ cjson_object
      → Put lib key any_item x c c'
      → x.kind ≡ cjson_string
      → x.valuestring ≡ some s
      → get_attribute_value_string (node it c' n) key ≡ ok (some s)
  unfolding get_attribute_value_string
  Put-reads_string it c c' n key x s e put k z =
      let text = is_kind cjson_string in
      rw
        (search_for-object text key text it c' n (ground arith) e
          ∙ find_item-wanted key text c' put.index x put.kids put.held (ground arith))
        (rw z)

  -- What a loop that ends leaves of the last item of a name: it was put into the chain `mid`, and
  -- the getters read of the result what they read of that.
  record Left (it : Item) (n : CJson) (key : Bytes) (y : Item) (t : CJson) : Type 0 where
    before : CJson
    mid : CJson
    put : Put lib key any_item (renamed key y) before mid
    same : SameAt key t (node it mid n)

  merge_loop-Left :
      (front : CJson) (fuel : ℕ) (it : Item) (c n : CJson) (x : Item) (kids rest : CJson) (y : Item)
      (key : Bytes)
      → size (append front (node x kids rest)) ≤ fuel
      → IsObject (node it c n)
      → HasNames (append front (node x kids rest))
      → AllCopyable pr (append front (node x kids rest))
      → Avoids lib key rest
      → x.name ≡ some key
      → CopiedAs x kids rest y
      → (t : CJson) × (merge_loop lib pr fuel (node it c n) (append front (node x kids rest))
          ≡ ok (returned t true))
        × Left it n key y t
  unfolding merge_loop size append
  merge_loop-Left null zero it c n x kids rest y key f o names copies avoids e made =
      absurd (omega arith)
  merge_loop-Left null (suc fuel) it c n x kids rest y key f o ((b, s, z), names) (h, copies) avoids
        e made =
      let at : b ∷ s ≡ key = cc in
      let (c', p, put) = put_item_copy-as it c n (b ∷ s) x kids rest y o (λ q. cc) made in
      let (t, loop, ot, st) =
        merge_loop-ends lib pr (b ∷ s) rest fuel it c' n (omega arith) (o.0, put.named) names copies
          (rw at avoids) in
      (
        t,
        rw (z, merge_loop) (rw p loop),
        rw (sym at) (record { before = c; mid = c'; put = put; same = st }),
      )
  merge_loop-Left (node w k front) zero it c n x kids rest y key f o names copies avoids e made =
      absurd (omega arith)
  merge_loop-Left (node w k front) (suc fuel) it c n x kids rest y key f o ((b, s, z), names)
        (h, copies) avoids e made =
      let (c', p, how) =
        put_item_copy-Put lib pr it c n (b ∷ s) w k (append front (node x kids rest)) o (λ q. cc)
          h in
      let (t, loop, left) =
        merge_loop-Left front fuel it c' n x kids rest y key (omega arith) (stays c' how) names
          copies avoids e made in
      (t, rw (z, merge_loop) (rw p loop), left)
    where
      stays :
          (c' : CJson)
          → (c' ≡ c) ⊎ ((u : Item) × Put lib (b ∷ s) any_item u c c')
          → IsObject (node it c' n)
      stays c' (inl u) = rw u o
      stays c' (inr (u, put)) = (o.0, put.named)

  -- `mergeJSONObjects` of a source whose children have names that are not empty, and are of the seven
  -- types with a text where one is a string, and where the parser takes what is printed of the arrays and
  -- objects, into an object with named children, in as many rounds as the source has children: where a number of the source is the last of its name, up to case, it returns
  -- true, and `getAttributeValue_Double` reads that number in the target.
  pub merge-double :
      (fuel : ℕ) (target source : Item) (tc tn sn front : CJson) (x : Item) (kids rest : CJson)
      (key : Bytes)
      → size (append front (node x kids rest)) ≤ fuel
      → IsObject (node target tc tn)
      → HasNames (append front (node x kids rest))
      → AllCopyable pr (append front (node x kids rest))
      → Avoids lib key rest
      → x.name ≡ some key
      → x.kind ≡ cjson_number
      → (t : CJson) × (merge_json_objects lib pr fuel
            (node target tc tn)
            (node source (append front (node x kids rest)) sn)
          ≡ ok (returned t true))
        × (get_attribute_value_double t key ≡ ok (some x.valuedouble))
  unfolding merge_json_objects
  merge-double fuel target source tc tn sn front x kids rest key f o names copies avoids e k =
      let y = number_item lib.floats x.valuedouble in
      let (t, loop, left) =
        merge_loop-Left front fuel target tc tn x kids rest y key f o names copies avoids e
          (number-CopiedAs x kids rest k) in
      (
        t,
        loop,
        left.same.double
            ∙ Put-reads_double target left.before left.mid tn key (renamed key y) o.0 left.put refl,
      )

  -- `mergeJSONObjects` of a source whose children have names that are not empty, and are of the seven
  -- types with a text where one is a string, and where the parser takes what is printed of the arrays and
  -- objects, into an object with named children, in as many rounds as the source has children: where a text of the source is the last of its name, up to case, it returns
  -- true, and `getAttributeValue_String` reads that text in the target.
  pub merge-string :
      (fuel : ℕ) (target source : Item) (tc tn sn front : CJson) (x : Item) (kids rest : CJson)
      (key s : Bytes)
      → size (append front (node x kids rest)) ≤ fuel
      → IsObject (node target tc tn)
      → HasNames (append front (node x kids rest))
      → AllCopyable pr (append front (node x kids rest))
      → Avoids lib key rest
      → x.name ≡ some key
      → x.kind ≡ cjson_string
      → x.valuestring ≡ some s
      → (t : CJson) × (merge_json_objects lib pr fuel
            (node target tc tn)
            (node source (append front (node x kids rest)) sn)
          ≡ ok (returned t true))
        × (get_attribute_value_string t key ≡ ok (some s))
  unfolding merge_json_objects
  merge-string fuel target source tc tn sn front x kids rest key s f o names copies avoids e k z =
      let (t, loop, left) =
        merge_loop-Left front fuel target tc tn x kids rest (string_item s) key f o names copies
          avoids e (string-CopiedAs x kids rest s k z) in
      (
        t,
        loop,
        left.same.text
            ∙ Put-reads_string target left.before left.mid tn key (renamed key (string_item s)) s
                o.0 left.put refl refl,
      )

  -- Where `cJSON_GetObjectItem` finds a number under the key in the source, and the target is an object
  -- with named children, whose key is not empty: `copyItem` returns true and leaves such an object, and
  -- `getAttributeValue_Double` reads that number under the key of the target.
  pub copy_item-double :
      (it : Item) (c n : CJson) (target_key : Bytes) (sit : Item) (sc sn : CJson)
      (source_key : Bytes) (x : Item) (kids rest : CJson)
      → IsObject (node it c n)
      → target_key ≢ []
      → lib.get_object_item (node sit sc sn) source_key ≡ node x kids rest
      → x.kind ≡ cjson_number
      → (q : CJson) × (copy_item lib pr (node it c n) target_key (node sit sc sn) source_key
          ≡ ok (q, true))
        × IsObject q
        × (get_attribute_value_double q target_key ≡ ok (some x.valuedouble))
  unfolding copy_item
  copy_item-double it c n target_key sit sc sn source_key x kids rest o ne found k =
      let y = number_item lib.floats x.valuedouble in
      let (c', p, put) =
        put_item_copy-as it c n target_key x kids rest y o ne (number-CopiedAs x kids rest k) in
      (
        node it c' n,
        rw (found, copy_item) (rw p),
        (o.0, put.named),
        Put-reads_double it c c' n target_key (renamed target_key y) o.0 put refl,
      )
