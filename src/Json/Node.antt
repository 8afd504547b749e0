-- ===== src/Json/Node.antt =====
-- `struct cJSON` and its type codes (src/cJSON.h). A `cJSON *` is the item that it points to, with
-- its children and the siblings behind it; `prev` is the way back and is not kept.
use protobuf_sandbox.Prelude.{
  ℕ, zero, suc, ◌≡◌, Bool, ◌||◌, Option, some, ◌==◌, if◌then◌else◌, Bytes,
}
use protobuf_sandbox.Prelude.Int.{ℤ}

-- A `double` is its 64-bit pattern; what the code computes with doubles is in `Library.Floats`.
abbrev pub Double : Type 0
Double = ℕ

-- The field `type` is `kind` here, and `string` is `name`; a NULL `char *` is `none`.
pub record Item : Type 0 where
  pub kind : ℕ
  pub valuestring : Option Bytes
  pub valueint : ℤ
  pub valuedouble : Double
  pub name : Option Bytes

-- `node item child next`.
pub data CJson : Type 0 where
  null : CJson
  node : Item → CJson → CJson → CJson

abbrev pub cjson_false : ℕ
cjson_false = 0

abbrev pub cjson_true : ℕ
cjson_true = 1

abbrev pub cjson_null : ℕ
cjson_null = 2

abbrev pub cjson_number : ℕ
cjson_number = 3

abbrev pub cjson_string : ℕ
cjson_string = 4

abbrev pub cjson_array : ℕ
cjson_array = 5

abbrev pub cjson_object : ℕ
cjson_object = 6

abbrev pub is_kind : ℕ → Item → Bool
is_kind k it = k == it.kind

abbrev pub is_bool : Item → Bool
is_bool it = cjson_true == it.kind || cjson_false == it.kind

abbrev pub is_container : Item → Bool
is_container it = cjson_array == it.kind || cjson_object == it.kind

-- Chains of siblings.
unfoldable pub append : CJson → CJson → CJson
append null m = m
append (node it c n) m = node it c (append n m)

-- The chain from the first item that passes the test.
unfoldable pub find_first : (Item → Bool) → CJson → CJson
find_first p null = null
find_first p (node it c n) = if p it then node it c n else find_first p n

-- The first item that passes is replaced by the given one, with its children.
unfoldable pub replace_first : (Item → Bool) → Item → CJson → CJson → CJson
replace_first p new kids null = null
replace_first p new kids (node it c n) =
    if p it then node new kids n else node it c (replace_first p new kids n)

-- The index of the first item that passes, or the length of the chain.
unfoldable pub position : (Item → Bool) → CJson → ℕ
position p null = 0
position p (node it c n) = if p it then 0 else suc (position p n)

unfoldable pub size : CJson → ℕ
size null = 0
size (node it c n) = suc (size n)

-- A store into the item at an index.
unfoldable pub edit : ℕ → (Item → Item) → CJson → CJson
edit i f null = null
edit zero f (node it c n) = node (f it) c n
edit (suc i) f (node it c n) = node it c (edit i f n)

unfoldable pub drop : ℕ → CJson → CJson
drop zero m = m
drop (suc i) null = null
drop (suc i) (node it c n) = drop i n

-- Each item of the chain has a name, as the parser and `cJSON_AddItemToObject` give it.
abbrev pub IsNamed : CJson → Type 0
IsNamed null = Unit {0}
IsNamed (node it c n) = ((s : Bytes) × (it.name ≡ some s)) × IsNamed n
