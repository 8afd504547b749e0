-- ===== src/Json/Access.antt =====
-- The readers of src/CNT_JSON.c that throw `cJSONException`: `getKey`, `getItem`, `asString`, `asDouble`
-- and `asInt`.
pub mod Keys
use protobuf_sandbox.Prelude.{
  ℕ, none, some, if◌then◌else◌, Bytes, codes, str_eq, Run, ok, fault, ◌>>=◌, ◌++◌,
}
use protobuf_sandbox.Prelude.Int.{ℤ}
use protobuf_sandbox.Json.Node.{
  Double, CJson, null, node, cjson_number, cjson_string, is_kind, cjson_object,
}
use protobuf_sandbox.Json.Library.{CJsonLib}

-- A call returns a value, or throws `cJSONException(obj, msg)`.
pub data Thrown {ℓ} (A : Type ℓ) : Type ℓ where
  value : A → Thrown A
  throw : CJson → Bytes → Thrown A

-- The `while` loop of `getKey`: a child without a name is compared all the same, which faults.
unfoldable pub walk_to : Bytes → CJson → Run CJson
walk_to key null = ok null
walk_to key (node it c n) = elim it.name [
  | none ↦ fault
  | some s ↦ let rest = walk_to key n in if str_eq s key then ok (node it c n) else rest
]

unfoldable pub get_key : CJson → Bytes → Run (Thrown CJson)
unfolding walk_to
get_key null key = ok (Thrown.value null)
get_key (node it c n) key =
    if is_kind cjson_object it
    then (walk_to key c >>= elim [
      | null ↦ ok (Thrown.throw (node it c n) (codes "key " ++ key ++ codes " not found"))
      | node x kids rest ↦ ok (Thrown.value (node x kids rest))
    ])
    else ok (Thrown.value null)

-- `cJSON_GetArrayItem` of NULL is a fault. The index is not negative.
unfoldable pub get_item : CJsonLib → CJson → Bytes → ℕ → Run (Thrown CJson)
unfolding get_key
get_item lib o key index = do
  r ← get_key o key
  elim r [
    | Thrown.throw obj msg ↦ ok (Thrown.throw obj msg)
    | Thrown.value null ↦ fault
    | Thrown.value (node x kids rest) ↦ elim (lib.get_array_item (node x kids rest) index) [
      | null ↦ ok (Thrown.throw o (codes "wrong index"))
      | node y more later ↦ ok (Thrown.value (node y more later))
    ]
  ]

unfoldable pub as_string : CJson → Run (Thrown Bytes)
as_string null = fault
as_string (node it c n) =
    if is_kind cjson_string it
    then elim it.valuestring [ none ↦ fault | some s ↦ ok (Thrown.value s) ]
    else ok (Thrown.throw (node it c n) (codes "not a string"))

unfoldable pub as_double : CJson → Run (Thrown Double)
as_double null = fault
as_double (node it c n) =
    if is_kind cjson_number it
    then ok (Thrown.value it.valuedouble)
    else ok (Thrown.throw (node it c n) (codes "not a number"))

unfoldable pub as_int : CJson → Run (Thrown ℤ)
as_int null = fault
as_int (node it c n) =
    if is_kind cjson_number it
    then ok (Thrown.value it.valueint)
    else ok (Thrown.throw (node it c n) (codes "not a number"))
