-- ===== src/Json/Convert/RoundTrip.antt =====
-- A map written to an object and read back.

use protobuf_sandbox.Prelude.{
  list_laws, ◌≡◌, refl, sym, ap, ◌∙◌, Bool, true, false, ◌||◌, some, List, [], ◌∷◌, ◌++◌, arith,
  Bytes, c_str, ok, All,
}
use protobuf_sandbox.Prelude.Int.{ℤ, fits_int}
use protobuf_sandbox.Prelude.Decimal.{read_int, read_int-show_int, c_str-show_int}
use protobuf_sandbox.Json.Node.{Double, CJson, null, node, append, cjson_object}
use protobuf_sandbox.Json.Library.{CJsonLib, blank, number_item, renamed}
use protobuf_sandbox.Json.Convert.{
  Keys, string_keys, int_keys, add_entries, map_to_json, upsert, take_entries, take_entry,
  take_named, json_to_map, map_to_json_str_double, json_to_map_str_double, map_to_json_int_double,
  json_to_map_int_double,
}

append_chain : (a b c : CJson) → append (append a b) c ≡ append a (append b c)
unfolding append
append_chain null b c = refl
append_chain (node it k n) b c = ap (node it k) (append_chain n b c)

append_null : (a : CJson) → append a null ≡ a
unfolding append
append_null null = refl
append_null (node it k n) = ap (node it k) (append_null n)

module _ {K : Type 0} (keys : Keys K) where
  abbrev pub is_key : K → List (K × Double) → Bool
  is_key k [] = false
  is_key k ((j, w) ∷ m) = keys.same j k || is_key k m

  -- No key of the second list is one of the first, or stands twice.
  abbrev pub HasNewKeys : List (K × Double) → List (K × Double) → Type 0
  HasNewKeys old [] = Unit {0}
  HasNewKeys old ((k, v) ∷ m) = (is_key k old ≡ false) × HasNewKeys (old ++ (k, v) ∷ []) m

  -- The name that is written for a key is read as that key.
  abbrev pub AllLegible : List (K × Double) → Type 0
  AllLegible [] = Unit {0}
  AllLegible ((k, v) ∷ m) = (keys.key (c_str (keys.text k)) ≡ some k) × AllLegible m

  upsert-new :
      (k : K) (v : Double) (m : List (K × Double))
      → is_key k m ≡ false
      → upsert keys k v m ≡ m ++ (k, v) ∷ []
  unfolding upsert
  upsert-new k v [] h = refl
  upsert-new k v ((j, w) ∷ m) h = ground (arith, upsert-new k v m)

  module _ (lib : CJsonLib) where
    entries : List (K × Double) → CJson
    entries [] = null
    entries ((k, v) ∷ m) =
        node (renamed (c_str (keys.text k)) (number_item lib.floats v)) null (entries m)

    add_entries-entries :
        (m : List (K × Double)) (c n : CJson)
        → add_entries keys lib m (node (blank cjson_object) c n)
          ≡ node (blank cjson_object) (append c (entries m)) n
    unfolding add_entries entries append
    add_entries-entries [] c n = ap (λ d. node (blank cjson_object) d n) (sym (append_null c))
    add_entries-entries ((k, v) ∷ m) c n =
        let new = number_item lib.floats v in
        let name = c_str (keys.text k) in
        ap
          (λ x.
            add_entries keys lib m (lib.add_item_to_object (node (blank cjson_object) c n) name x))
          (lib.create_number_lem v)
        ∙ ap (add_entries keys lib m) (lib.add_lem (blank cjson_object) c n name new null)
        ∙ add_entries-entries m (append c (node (renamed name new) null null)) n
        ∙ ap (λ d. node (blank cjson_object) d n)
            (append_chain c (node (renamed name new) null null) (entries m))

    take_entries-entries :
        (m old : List (K × Double))
        → HasNewKeys old m
        → AllLegible m
        → take_entries keys (entries m) old ≡ ok (old ++ m, true)
    unfolding take_entries take_entry take_named entries
    take_entries-entries [] old h t = simp list_laws
    take_entries-entries ((k, v) ∷ m) old (h, hs) (t, ts) = rw (t) (
        ap (take_entries keys (entries m)) (upsert-new k v old h)
        ∙ take_entries-entries m (old ++ (k, v) ∷ []) hs ts
        ∙ simp list_laws)

    json_to_map-written :
        (m old : List (K × Double))
        → HasNewKeys old m
        → AllLegible m
        → json_to_map keys (map_to_json keys lib m).0 old ≡ ok (old ++ m, true)
    unfolding json_to_map map_to_json append
    json_to_map-written m old h t =
        let made =
          ap (add_entries keys lib m) lib.create_object_lem ∙ add_entries-entries m null null in
        rw (made, json_to_map) (take_entries-entries m old h t)

-- A `const char *` holds the key.
abbrev pub IsText : Bytes × Double → Type 0
IsText (k, v) = c_str k ≡ k

texts_AllLegible : (m : List (Bytes × Double)) → All IsText m → AllLegible string_keys m
texts_AllLegible [] h = tt
texts_AllLegible ((k, v) ∷ m) (h, hs) = (ap some h, texts_AllLegible m hs)

-- The key is an `int`.
abbrev pub IsInt : ℤ × Double → Type 0
IsInt (k, v) = fits_int k ≡ true

ints_AllLegible : (m : List (ℤ × Double)) → All IsInt m → AllLegible int_keys m
ints_AllLegible [] h = tt
ints_AllLegible ((k, v) ∷ m) (h, hs) =
    (ap read_int (c_str-show_int k) ∙ read_int-show_int k h, ints_AllLegible m hs)

module _ (lib : CJsonLib) where
  -- The object that `MapToJSON_Str_Double` makes of a map, whose keys are distinct and hold no NUL
  -- byte, is read by `JSONToMap_Str_Double` into a map without these keys: it adds the pairs of the
  -- map, changes none of the others, and returns true.
  pub json_to_map-map_to_json :
      (m old : List (Bytes × Double))
      → HasNewKeys string_keys old m
      → All IsText m
      → json_to_map_str_double (map_to_json_str_double lib m).0 old ≡ ok (old ++ m, true)
  json_to_map-map_to_json m old h t =
      json_to_map-written string_keys lib m old h (texts_AllLegible m t)

  -- The object that `MapToJSON_Int_Double` makes of a map, whose keys are distinct and in the range of
  -- `int`, is read by `JSONToMap_Int_Double` into a map without these keys: every key comes back from
  -- its decimal text, the pairs of the map are added, none of the others changes, and it returns true.
  pub json_to_map_int-map_to_json_int :
      (m old : List (ℤ × Double))
      → HasNewKeys int_keys old m
      → All IsInt m
      → json_to_map_int_double (map_to_json_int_double lib m).0 old ≡ ok (old ++ m, true)
  json_to_map_int-map_to_json_int m old h t =
      json_to_map-written int_keys lib m old h (ints_AllLegible m t)
