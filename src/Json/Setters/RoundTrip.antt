-- ===== src/Json/Setters/RoundTrip.antt =====
-- What `getAttributeValue_*` reads after `setAttributeValue_Double` and `setAttributeValue_String`.
use protobuf_sandbox.Prelude.{
  ◌≡◌, refl, sym, Bool, true, false, some, arith, ap, ◌∙◌, Bytes, c_str, ok,
}
use protobuf_sandbox.Json.Node.{
  Double, Item, CJson, null, node, cjson_object, cjson_number, cjson_string, is_kind, is_bool,
}
use protobuf_sandbox.Json.Library.{CJsonLib, number_item, string_item}
use protobuf_sandbox.Json.Getters.{
  find_item, search_for, get_attribute_value_double, get_attribute_value_string,
  get_attribute_value_int, get_attribute_value_bool,
}
use protobuf_sandbox.Json.Setters.{put_item, set_attribute_value_double, set_attribute_value_string}
use protobuf_sandbox.Json.Setters.Put.{IsObject, put_item-Put, search_for-object}

-- What the four getters read under `k`.
pub record SameAt (k : Bytes) (q o : CJson) : Type 0 where
  pub int : get_attribute_value_int q k ≡ get_attribute_value_int o k
  pub double : get_attribute_value_double q k ≡ get_attribute_value_double o k
  pub text : get_attribute_value_string q k ≡ get_attribute_value_string o k
  pub bool : get_attribute_value_bool q k ≡ get_attribute_value_bool o k

pub SameAt-trans : (k : Bytes) (a b c : CJson) → SameAt k a b → SameAt k b c → SameAt k a c
SameAt-trans k a b c f g = record {
  int = f.int ∙ g.int;
  double = f.double ∙ g.double;
  text = f.text ∙ g.text;
  bool = f.bool ∙ g.bool;
}

pub SameAt-of_others :
    (it : Item) (c c' n : CJson) (k : Bytes)
    → it.kind ≡ cjson_object
    → ((want : Item → Bool) → find_item k want c' ≡ find_item k want c)
    → SameAt k (node it c' n) (node it c n)
unfolding get_attribute_value_int get_attribute_value_double get_attribute_value_string
    get_attribute_value_bool
SameAt-of_others it c c' n k e same = record {
  int = rw (alike (is_kind cjson_number) (is_kind cjson_number) (ground arith));
  double = rw (alike (is_kind cjson_number) (is_kind cjson_number) (ground arith));
  text = rw (alike (is_kind cjson_string) (is_kind cjson_string) (ground arith));
  bool = rw (alike is_bool (λ x. true) (ground arith));
}
  where
    alike :
        (own want : Item → Bool)
        → own it ≡ false
        → search_for own k want (node it c' n) ≡ search_for own k want (node it c n)
    alike own want h =
        search_for-object own k want it c' n h e
        ∙ same want
        ∙ sym (search_for-object own k want it c n h e)

module _ (lib : CJsonLib) where
  set_double_lem :
      (o : CJson) (key : Bytes) (v : Double)
      → set_attribute_value_double lib o key v
        ≡ put_item lib cjson_number o key (node (number_item lib.floats v) null null)
  unfolding set_attribute_value_double
  set_double_lem o key v = ap (put_item lib cjson_number o key) (lib.create_number_lem v)

  set_string_lem :
      (o : CJson) (key v : Bytes)
      → c_str v ≡ v
      → set_attribute_value_string lib o key v
        ≡ put_item lib cjson_string o key (node (string_item v) null null)
  unfolding set_attribute_value_string
  set_string_lem o key v t =
      ap (put_item lib cjson_string o key) (ap lib.create_string t ∙ lib.create_string_lem v)

  -- On an object whose children all have names, and for a key without a NUL byte,
  -- `setAttributeValue_Double` returns true, leaves such an object, and `getAttributeValue_Double`
  -- then reads the value that was set.
  pub get_double-set_double :
      (o : CJson) (key : Bytes) (v : Double)
      → IsObject o
      → c_str key ≡ key
      → (q : CJson) × (set_attribute_value_double lib o key v ≡ ok (q, true))
        × IsObject q
        × (get_attribute_value_double q key ≡ ok (some v))
  unfolding get_attribute_value_double
  get_double-set_double null key v h t = absurd h
  get_double-set_double (node it c n) key v (e, h) t =
      let number = is_kind cjson_number in
      let (c', eq, put) =
        put_item-Put lib cjson_number it c n key (number_item lib.floats v) (ground arith) (e, h) t
          refl in
      (
        node it c' n,
        set_double_lem (node it c n) key v ∙ eq,
        (e, put.named),
        rw (search_for-object number key number it c' n (ground arith) e ∙ put.held),
      )

  -- On an object whose children all have names, for a key and a value without a NUL byte,
  -- `setAttributeValue_String` returns true, leaves such an object, and `getAttributeValue_String`
  -- then reads the value that was set.
  pub get_string-set_string :
      (o : CJson) (key v : Bytes)
      → IsObject o
      → c_str key ≡ key
      → c_str v ≡ v
      → (q : CJson) × (set_attribute_value_string lib o key v ≡ ok (q, true))
        × IsObject q
        × (get_attribute_value_string q key ≡ ok (some v))
  unfolding get_attribute_value_string
  get_string-set_string null key v h t tv = absurd h
  get_string-set_string (node it c n) key v (e, h) t tv =
      let text = is_kind cjson_string in
      let (c', eq, put) =
        put_item-Put lib cjson_string it c n key (string_item v) (ground arith) (e, h) t refl in
      (
        node it c' n,
        set_string_lem (node it c n) key v tv ∙ eq,
        (e, put.named),
        rw (search_for-object text key text it c' n (ground arith) e ∙ put.held),
      )

  -- On an object whose children all have names, for a key without a NUL byte,
  -- `setAttributeValue_Double` that returns true changes nothing that the getters of numbers, texts
  -- and truth values read under a name that differs from the key by more than case.
  pub set_double-others :
      (o : CJson) (key : Bytes) (v : Double) (k : Bytes) (q : CJson)
      → IsObject o
      → c_str key ≡ key
      → lib.same k key ≡ false
      → set_attribute_value_double lib o key v ≡ ok (q, true)
      → SameAt k q o
  set_double-others null key v k q h t ne s = absurd h
  set_double-others (node it c n) key v k q (e, h) t ne s =
      let (c', eq, put) =
        put_item-Put lib cjson_number it c n key (number_item lib.floats v) (ground arith) (e, h) t
          refl in
      let made : q ≡ node it c' n = cc (set_double_lem (node it c n) key v) in
      rw made (SameAt-of_others it c c' n k e (λ want. put.others k want ne))

  -- On an object whose children all have names, for a key and a value without a NUL byte,
  -- `setAttributeValue_String` that returns true changes nothing that the getters of numbers, texts
  -- and truth values read under a name that differs from the key by more than case.
  pub set_string-others :
      (o : CJson) (key v k : Bytes) (q : CJson)
      → IsObject o
      → c_str key ≡ key
      → c_str v ≡ v
      → lib.same k key ≡ false
      → set_attribute_value_string lib o key v ≡ ok (q, true)
      → SameAt k q o
  set_string-others null key v k q h t tv ne s = absurd h
  set_string-others (node it c n) key v k q (e, h) t tv ne s =
      let (c', eq, put) =
        put_item-Put lib cjson_string it c n key (string_item v) (ground arith) (e, h) t refl in
      let made : q ≡ node it c' n = cc (set_string_lem (node it c n) key v tv) in
      rw made (SameAt-of_others it c c' n k e (λ want. put.others k want ne))
