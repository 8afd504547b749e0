-- ===== src/Json/Convert.antt =====
-- The conversion of maps in src/CNT_JSON.c: `MapToJSON_Str_Double`, `MapToJSON_Int_Double`,
-- `JSONToMap_Str_Double` and `JSONToMap_Int_Double`. A `std::map` is the list of its pairs as it is
-- gone through. The two kinds of keys share the functions, which take what is done with a key.
pub mod RoundTrip
use protobuf_sandbox.Prelude.{
  Bool, true, false, ◌==◌, Option, none, some, List, [], ◌∷◌, if◌then◌else◌, Bytes, c_str, str_eq,
  Run, ok, fault, ◌>>=◌,
}
use protobuf_sandbox.Prelude.Int.{ℤ, pos, negsuc}
use protobuf_sandbox.Prelude.Decimal.{show_int, read_int}
use protobuf_sandbox.Json.Node.{Double, Item, CJson, null, node, cjson_number, is_kind}
use protobuf_sandbox.Json.Library.{CJsonLib}

-- `text` is the name of an item for a key, `key` the key for a name, where the stream does not fail,
-- and `same` the comparison of the map.
pub record Keys (K : Type 0) : Type 0 where
  pub text : K → Bytes
  pub key : Bytes → Option K
  pub same : K → K → Bool

abbrev pub string_keys : Keys Bytes
string_keys = record { text = λ k. k; key = some; same = str_eq }

abbrev int_eq : ℤ → ℤ → Bool
int_eq (pos a) (pos b) = a == b
int_eq (negsuc a) (negsuc b) = a == b
int_eq _ _ = false

abbrev pub int_keys : Keys ℤ
int_keys = record { text = show_int; key = read_int; same = int_eq }

module _ {K : Type 0} (keys : Keys K) where
  unfoldable pub add_entries : CJsonLib → List (K × Double) → CJson → CJson
  add_entries lib [] o = o
  add_entries lib ((k, v) ∷ m) o =
      add_entries lib m (lib.add_item_to_object o (c_str (keys.text k)) (lib.create_number v))

  -- `find`, then `insert` or the replacement of the value. The list has the entries of the `std::map` in
  -- the order of their insertion; the order of the keys, in which the program walks through a map, is
  -- that of the list it is given.
  unfoldable pub upsert : K → Double → List (K × Double) → List (K × Double)
  upsert k v [] = (k, v) ∷ []
  upsert k v ((j, w) ∷ m) =
      let rest = upsert k v m in if keys.same j k then (j, v) ∷ m else (j, w) ∷ rest

  -- A number with its name: the map, and whether the name is a key.
  unfoldable pub take_named : Option K → Double → List (K × Double) → List (K × Double) × Bool
  unfolding upsert
  take_named none v m = (m, false)
  take_named (some k) v m = (upsert k v m, true)

  -- The body of the loop. The name of a number that has none is written to the stream all the same.
  unfoldable pub take_entry : Item → List (K × Double) → Run (List (K × Double) × Bool)
  unfolding take_named
  take_entry it m =
      if is_kind cjson_number it
      then elim it.name [ none ↦ fault | some s ↦ ok (take_named (keys.key s) it.valuedouble m) ]
      else ok (m, true)

  -- The loop, which returns false at the first name that is no key.
  unfoldable pub take_entries : CJson → List (K × Double) → Run (List (K × Double) × Bool)
  unfolding take_entry
  take_entries null m = ok (m, true)
  take_entries (node it c n) m = do
    (next, good) ← take_entry it m
    if good then take_entries n next else ok (next, false)

  unfoldable pub map_to_json : CJsonLib → List (K × Double) → CJson × Bool
  unfolding add_entries
  map_to_json lib m = (add_entries lib m lib.create_object, true)

  unfoldable pub json_to_map : CJson → List (K × Double) → Run (List (K × Double) × Bool)
  unfolding take_entries
  json_to_map null m = ok (m, false)
  json_to_map (node it c n) m = take_entries c m

abbrev pub map_to_json_str_double : CJsonLib → List (Bytes × Double) → CJson × Bool
map_to_json_str_double = map_to_json string_keys

abbrev pub map_to_json_int_double : CJsonLib → List (ℤ × Double) → CJson × Bool
map_to_json_int_double = map_to_json int_keys

abbrev pub json_to_map_str_double :
    CJson → List (Bytes × Double) → Run (List (Bytes × Double) × Bool)
json_to_map_str_double = json_to_map string_keys

abbrev pub json_to_map_int_double : CJson → List (ℤ × Double) → Run (List (ℤ × Double) × Bool)
json_to_map_int_double = json_to_map int_keys
