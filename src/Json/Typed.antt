-- ===== src/Json/Typed.antt =====
-- Objects whose items hold what their type says, and what the setters and getters of src/CNT_JSON.c make
-- of them.
pub mod Chains
pub mod Edits
pub mod Getters
pub mod Setters
use protobuf_sandbox.Prelude.{◌≡◌, Bool, some, List, [], ◌∷◌, Bytes, Run, ok, ◌>>=◌}
use protobuf_sandbox.Json.Node.{
  Double, Item, CJson, null, node, cjson_number, cjson_string, cjson_object,
}
use protobuf_sandbox.Json.Library.{Floats, CJsonLib}
use protobuf_sandbox.Json.Setters.{
  set_attribute_value_double, set_attribute_value_string, set_attribute_value_bool,
  incr_attribute_value_double,
}

-- A name, a text where the type is one, and in a number the two values that belong together.
pub record HasType (fl : Floats) (it : Item) : Type 0 where
  pub named : (s : Bytes) × (it.name ≡ some s)
  pub text : it.kind ≡ cjson_string → (s : Bytes) × (it.valuestring ≡ some s)
  pub number : it.kind ≡ cjson_number → it.valueint ≡ fl.to_int it.valuedouble

abbrev pub IsTyped : Floats → CJson → Type 0
IsTyped fl null = Unit
IsTyped fl (node it c n) = HasType fl it × IsTyped fl n

abbrev pub IsTypedObject : Floats → CJson → Type 0
IsTypedObject fl null = ⊥
IsTypedObject fl (node it c n) = (it.kind ≡ cjson_object) × IsTyped fl c

-- The setters of doubles, texts and truth values.
pub data Edit : Type 0 where
  set_double incr_double : Bytes → Double → Edit
  set_string : Bytes → Bytes → Edit
  set_bool : Bytes → Bool → Edit

unfoldable pub run_edit : CJsonLib → CJson → Edit → Run (CJson × Bool)
unfolding set_attribute_value_double set_attribute_value_string set_attribute_value_bool
    incr_attribute_value_double
run_edit lib o (set_double key v) = set_attribute_value_double lib o key v
run_edit lib o (incr_double key d) = incr_attribute_value_double lib o key d
run_edit lib o (set_string key v) = set_attribute_value_string lib o key v
run_edit lib o (set_bool key v) = set_attribute_value_bool lib o key v

unfoldable pub run_edits : CJsonLib → CJson → List Edit → Run CJson
unfolding run_edit
run_edits lib o [] = ok o
run_edits lib o (e ∷ edits) = do r ← run_edit lib o e; run_edits lib r.0 edits
