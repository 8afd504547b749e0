-- ===== src/Json/Library.antt =====
-- What the code calls of the cJSON library (src/cJSON.c) and of the machine's doubles, as records of
-- operations with the documented behaviour that the code relies on. Allocation succeeds.
use protobuf_sandbox.Prelude.{◌≡◌, Bool, true, none, some, ℕ, Bytes}
use protobuf_sandbox.Prelude.Int.{ℤ, pos, fits_int}
use protobuf_sandbox.Json.Node.{
  Double, Item, CJson, null, node, cjson_false, cjson_true, cjson_null, cjson_number, cjson_string,
  cjson_object, append, find_first, replace_first, size, drop,
}

-- Conversions and arithmetic of `double`.
pub record Floats : Type 0 where
  pub to_int : Double → ℤ
  pub of_int : ℤ → Double
  pub plus : Double → Double → Double
  pub to_int-of_int : (n : ℤ) → fits_int n ≡ true → to_int (of_int n) ≡ n

-- An item that has a type and no name yet.
abbrev pub blank : ℕ → Item
blank k = record { kind = k; valuestring = none; valueint = pos 0; valuedouble = 0; name = none }

abbrev pub number_item : Floats → Double → Item
number_item fl d = record (blank cjson_number) { valueint = fl.to_int d; valuedouble = d }

abbrev pub string_item : Bytes → Item
string_item s = record (blank cjson_string) { valuestring = some s }

-- `same` compares names the way the library does, without regard to case; no name is equal to none.
abbrev pub has_name : (Bytes → Bytes → Bool) → Bytes → Item → Bool
has_name same k it = elim it.name [ none ↦ Bool.false | some s ↦ same s k ]

abbrev pub renamed : Bytes → Item → Item
renamed k it = record it { name = some k }

pub record CJsonLib : Type 0 where
  pub floats : Floats
  pub same : Bytes → Bytes → Bool
  pub create_number : Double → CJson
  pub create_string : Bytes → CJson
  pub create_true : CJson
  pub create_false : CJson
  pub create_null : CJson
  pub create_object : CJson
  pub add_item_to_object : CJson → Bytes → CJson → CJson
  pub replace_item_in_object : CJson → Bytes → CJson → CJson
  pub get_object_item : CJson → Bytes → CJson
  pub get_array_size : CJson → ℕ
  pub get_array_item : CJson → ℕ → CJson
  -- Names are compared by an equivalence.
  pub same_refl : (a : Bytes) → same a a ≡ true
  pub same_symm : (a b : Bytes) → same a b ≡ true → same b a ≡ true
  pub same_trans : (a b c : Bytes) → same a b ≡ true → same b c ≡ true → same a c ≡ true
  -- "These calls create a cJSON item of the appropriate type."
  pub create_number_lem : (d : Double) → create_number d ≡ node (number_item floats d) null null
  pub create_string_lem : (s : Bytes) → create_string s ≡ node (string_item s) null null
  pub create_true_lem : create_true ≡ node (blank cjson_true) null null
  pub create_false_lem : create_false ≡ node (blank cjson_false) null null
  pub create_null_lem : create_null ≡ node (blank cjson_null) null null
  pub create_object_lem : create_object ≡ node (blank cjson_object) null null
  -- "Append item to the specified array/object."
  pub add_lem :
      (o : Item) (c n : CJson) (k : Bytes) (it : Item) (kids : CJson)
      → add_item_to_object (node o c n) k (node it kids null)
        ≡ node o (append c (node (renamed k it) kids null)) n
  -- "Replace array/object items with new ones": the item that `get_object_item` finds, if any.
  pub replace_lem :
      (o : Item) (c n : CJson) (k : Bytes) (it : Item) (kids : CJson)
      → replace_item_in_object (node o c n) k (node it kids null)
        ≡ node o (replace_first (has_name same k) (renamed k it) kids c) n
  -- "Get item "string" from object. Case insensitive."
  pub get_lem :
      (o : Item) (c n : CJson) (k : Bytes)
      → get_object_item (node o c n) k ≡ find_first (has_name same k) c
  -- "Returns the number of items in an array (or object)." "Retrieve item number "item"".
  pub size_lem : (o : Item) (c n : CJson) → get_array_size (node o c n) ≡ size c
  pub item_lem : (o : Item) (c n : CJson) (i : ℕ) → get_array_item (node o c n) i ≡ drop i c
