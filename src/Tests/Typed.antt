-- ===== src/Tests/Typed.antt =====
-- A sequence of setters on a new object.
use protobuf_sandbox.Prelude.{◌≡◌, refl, true, List, [], ◌∷◌, Bytes, codes, ok}
use protobuf_sandbox.Json.Node.{CJson, null, node, cjson_object}
use protobuf_sandbox.Json.Library.{blank}
use protobuf_sandbox.Json.Typed.{
  IsTypedObject, Edit, set_double, incr_double, set_string, set_bool, run_edits,
}
use protobuf_sandbox.Json.Typed.Getters.{Reads}
use protobuf_sandbox.Json.Typed.Edits.{run_edits-IsTypedObject}
use protobuf_sandbox.Tests.Library.{floats, lib}

abbrev empty_object : CJson
empty_object = node (blank cjson_object) null null

abbrev edits : List Edit
edits =
    set_double (codes "a") 7
    ∷ set_string (codes "s") (codes "text")
    ∷ set_bool (codes "b") true
    ∷ incr_double (codes "a") 1
    ∷ incr_double (codes "s") 1
    ∷ set_string (codes "A") (codes "other")
    ∷ []

run_edits-IsTypedObject_example :
    (o : CJson) × (run_edits lib empty_object edits ≡ ok o)
    × IsTypedObject floats o
    × ((key : Bytes) → Reads floats o key)
run_edits-IsTypedObject_example = run_edits-IsTypedObject lib edits empty_object (refl, tt)
