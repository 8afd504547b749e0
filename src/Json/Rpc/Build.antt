-- ===== src/Json/Rpc/Build.antt =====
-- What the RPC objects hold.
use protobuf_sandbox.Prelude.{◌≡◌, refl, true, some, Bytes, codes, c_str, str_eq, ok}
use protobuf_sandbox.Prelude.Int.{ℤ, fits_int}
use protobuf_sandbox.Json.Node.{Item, CJson, null, node, cjson_object, append}
use protobuf_sandbox.Json.Library.{CJsonLib, blank, number_item, string_item, renamed}
use protobuf_sandbox.Json.Getters.{get_id, get_attribute_value_string}
use protobuf_sandbox.Json.Rpc.{create_rpc_obj, create_rpc_resp_obj_of_id, create_rpc_resp_obj}

module _ (lib : CJsonLib) where
  abbrev id_item : ℤ → Item
  id_item id = renamed (codes "id") (number_item lib.floats (lib.floats.of_int id))

  create_rpc_obj_lem :
      (method : Bytes) (id : ℤ)
      → create_rpc_obj lib method id
        ≡ node
            (blank cjson_object)
            (node
              (renamed (codes "method") (string_item (c_str method)))
              null
              (node (id_item id) null null))
            null
  unfolding create_rpc_obj append
  create_rpc_obj_lem method id =
      rw
        (
          lib.create_object_lem,
          lib.create_string_lem (c_str method),
          lib.create_number_lem (lib.floats.of_int id),
        )
        (rw (lib.add_lem (blank cjson_object) null null (codes "method")) (rw lib.add_lem))

  create_rpc_resp_obj_lem :
      (id : ℤ)
      → create_rpc_resp_obj_of_id lib id
        ≡ node (blank cjson_object) (node (id_item id) null null) null
  unfolding create_rpc_resp_obj_of_id append
  create_rpc_resp_obj_lem id =
      rw (lib.create_object_lem, lib.create_number_lem (lib.floats.of_int id)) (rw lib.add_lem)

  -- The method and the identifier of an RPC object are the ones given, up to the first NUL byte of
  -- the method; the identifier is an `int`.
  pub get_id-create_rpc_obj :
      (method : Bytes) (id : ℤ)
      → fits_int id ≡ true
      → (get_id (create_rpc_obj lib method id) ≡ ok id)
        × (get_attribute_value_string (create_rpc_obj lib method id) (codes "method")
            ≡ ok (some (c_str method)))
  unfolding get_id get_attribute_value_string str_eq
  get_id-create_rpc_obj method id f =
      rw (create_rpc_obj_lem method id) (rw (lib.floats.to_int-of_int id f), refl)

  get_id-resp : (id : ℤ) → fits_int id ≡ true → get_id (create_rpc_resp_obj_of_id lib id) ≡ ok id
  unfolding get_id str_eq
  get_id-resp id f = rw (create_rpc_resp_obj_lem id) (rw (lib.floats.to_int-of_int id f))

  -- The response to an RPC object carries its identifier, which is an `int`.
  pub get_id-create_rpc_resp_obj :
      (method : Bytes) (id : ℤ)
      → fits_int id ≡ true
      → (r : CJson) × (create_rpc_resp_obj lib (create_rpc_obj lib method id) ≡ ok r)
        × (get_id r ≡ ok id)
  unfolding create_rpc_resp_obj
  get_id-create_rpc_resp_obj method id f =
      (create_rpc_resp_obj_of_id lib id, rw (get_id-create_rpc_obj method id f).0, get_id-resp id f)
