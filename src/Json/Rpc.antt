-- ===== src/Json/Rpc.antt =====
-- Building RPC objects: `createRPCObj`, `createRPC_RespObj` and `addParamsMap` of src/CNT_JSON.c.
-- A `map` argument is the list of its entries in the order of iteration.
pub mod Build
use protobuf_sandbox.Prelude.{
  ℕ, zero, suc, Bool, true, false, none, some, List, [], ◌∷◌, leb, length, if◌then◌else◌, Bytes,
  codes, c_str, Run, ok, fault, ◌>>=◌,
}
use protobuf_sandbox.Prelude.Int.{ℤ}
use protobuf_sandbox.Json.Node.{Double, Item, CJson, null, node, position, size, edit}
use protobuf_sandbox.Json.Library.{CJsonLib, has_name}
use protobuf_sandbox.Json.Getters.{does_attribute_exist, get_id}

unfoldable pub create_rpc_obj : CJsonLib → Bytes → ℤ → CJson
create_rpc_obj lib method id =
    let named =
      lib.add_item_to_object lib.create_object (codes "method")
        (lib.create_string (c_str method)) in
    lib.add_item_to_object named (codes "id") (lib.create_number (lib.floats.of_int id))

unfoldable pub create_rpc_resp_obj_of_id : CJsonLib → ℤ → CJson
create_rpc_resp_obj_of_id lib id =
    lib.add_item_to_object lib.create_object (codes "id") (lib.create_number (lib.floats.of_int id))

unfoldable pub create_rpc_resp_obj : CJsonLib → CJson → Run CJson
create_rpc_resp_obj lib o = do id ← get_id o; ok (create_rpc_resp_obj_of_id lib id)

-- `args` at an index of the children; behind the last of them it is NULL.
unfoldable pub update_at : ℕ → (CJson → Run CJson) → CJson → Run CJson
update_at i f null = f null
update_at zero f (node it c n) = f (node it c n)
update_at (suc i) f (node it c n) = do m ← update_at i f n; ok (node it c m)

-- A store through `tmpObj`, the child that `cJSON_GetObjectItem` finds.
unfoldable pub edit_child : CJsonLib → CJson → Bytes → (Item → Item) → CJson
edit_child lib null k f = null
edit_child lib (node it c n) k f = node it (edit (position (has_name lib.same k) c) f c) n

-- The body of the loop over texts. `strcpy` over a shorter text, or over NULL, is a fault.
unfoldable pub put_text : CJsonLib → CJson → Bytes × Bytes → Run CJson
unfolding edit_child
put_text lib null kv = fault
put_text lib (node a c n) (k, v) = elim (lib.get_object_item (node a c n) (c_str k)) [
  | null ↦ ok (lib.add_item_to_object (node a c n) (c_str k) (lib.create_string (c_str v)))
  | node x kids rest ↦ elim x.valuestring [
    | none ↦ fault
    | some old ↦
        if leb (length (c_str v)) (length old)
        then ok
            (edit_child lib (node a c n) (c_str k) (λ y. record y { valuestring = some (c_str v) }))
        else fault
  ]
]

-- The body of the loop over doubles; only `valuedouble` is stored.
unfoldable pub put_double : CJsonLib → CJson → Bytes × Double → Run CJson
unfolding edit_child
put_double lib null kv = fault
put_double lib (node a c n) (k, v) = elim (lib.get_object_item (node a c n) (c_str k)) [
  | null ↦ ok (lib.add_item_to_object (node a c n) (c_str k) (lib.create_number v))
  | node x kids rest ↦
      ok (edit_child lib (node a c n) (c_str k) (λ y. record y { valuedouble = v }))
]

unfoldable pub put_all {ℓ} : {A : Type ℓ} → (CJson → A → Run CJson) → List A → CJson → Run CJson
put_all put [] args = ok args
put_all put (kv ∷ kvs) args = do next ← put args kv; put_all put kvs next

-- The part that both versions of `addParamsMap` share: find or create `params`, then fill it.
unfoldable pub add_params {ℓ} :
    {A : Type ℓ} → CJsonLib → (CJson → A → Run CJson) → CJson → List A → Run (CJson × Bool)
unfolding update_at put_all
add_params lib put null args = ok (null, false)
add_params lib put (node it c n) args = do
  there ← does_attribute_exist (node it c n) (codes "params") false
  let base =
      if there
      then node it c n
      else lib.add_item_to_object (node it c n) (codes "params") lib.create_object
  let at = if there then position (has_name lib.same (codes "params")) c else size c
  elim base [
    | null ↦ fault
    | node bit bc bn ↦ (update_at at (put_all put args) bc >>= λ m. ok (node bit m bn, true))
  ]

unfoldable pub add_params_map_text : CJsonLib → CJson → List (Bytes × Bytes) → Run (CJson × Bool)
unfolding add_params put_text
add_params_map_text lib = add_params lib (put_text lib)

unfoldable pub add_params_map_double : CJsonLib → CJson → List (Bytes × Double) → Run (CJson × Bool)
unfolding add_params put_double
add_params_map_double lib = add_params lib (put_double lib)

-- `createRPCObj(method, id, Args)`, which drops the value that `addParamsMap` returns.
unfoldable pub create_rpc_obj_with_args : CJsonLib → Bytes → ℤ → List (Bytes × Bytes) → Run CJson
unfolding create_rpc_obj add_params_map_text
create_rpc_obj_with_args lib method id args = do
  r ← add_params_map_text lib (create_rpc_obj lib method id) args
  ok r.0
