-- ===== src/Json/Typed/Edits.antt =====
-- Sequences of setters on typed objects.
use protobuf_sandbox.Prelude.{◌≡◌, refl, Bool, true, List, [], ◌∷◌, Bytes, ok}
use protobuf_sandbox.Json.Node.{CJson, null, node}
use protobuf_sandbox.Json.Library.{Floats, CJsonLib}
use protobuf_sandbox.Json.Typed.{
  IsTypedObject, Edit, set_double, incr_double, set_string, set_bool, run_edit, run_edits,
}
use protobuf_sandbox.Json.Typed.Getters.{typed-Reads, Reads}
use protobuf_sandbox.Json.Typed.Setters.{
  set_double-Leaves, set_string-Leaves, set_bool-Leaves, incr_double_typed,
}

run_edit_typed :
    (lib : CJsonLib) (o : CJson) (e : Edit)
    → IsTypedObject lib.floats o
    → (o' : CJson) × (b : Bool) × (run_edit lib o e ≡ ok (o', b)) × IsTypedObject lib.floats o'
unfolding run_edit
run_edit_typed lib null e t = elim t [ ]
run_edit_typed lib (node it c n) (set_double key v) t =
    let (o, e, typed) = set_double-Leaves lib it c n key t v in (o, true, e, typed)
run_edit_typed lib (node it c n) (incr_double key d) t = incr_double_typed lib it c n key t d
run_edit_typed lib (node it c n) (set_string key v) t =
    let (o, e, typed) = set_string-Leaves lib it c n key t v in (o, true, e, typed)
run_edit_typed lib (node it c n) (set_bool key v) t =
    let (o, e, typed) = set_bool-Leaves lib it c n key t v in (o, true, e, typed)

IsTypedObject-Reads : (fl : Floats) (o : CJson) (key : Bytes) → IsTypedObject fl o → Reads fl o key
IsTypedObject-Reads fl null key t = elim t [ ]
IsTypedObject-Reads fl (node it c n) key t = typed-Reads fl it c n key t

-- An object whose children have names, a text each where they are texts, and in each number an integer
-- that belongs to its double, stays such an object under every sequence of setAttributeValue_Double,
-- _String and _Bool and incrAttributeValue_Double. None of these calls faults, and neither does any
-- getter of doubles, ints, texts or truth values afterwards, under any name; and the int that is read is
-- the double that is read, as an int.
pub run_edits-IsTypedObject :
    (lib : CJsonLib) (edits : List Edit) (o : CJson)
    → IsTypedObject lib.floats o
    → (o' : CJson) × (run_edits lib o edits ≡ ok o')
      × IsTypedObject lib.floats o'
      × ((key : Bytes) → Reads lib.floats o' key)
unfolding run_edits
run_edits-IsTypedObject lib [] o t = (o, refl, t, λ key. IsTypedObject-Reads lib.floats o key t)
run_edits-IsTypedObject lib (e ∷ edits) o t =
    let (next, b, done, typed) = run_edit_typed lib o e t in
    let (o', ran, last, reads) = run_edits-IsTypedObject lib edits next typed in
    (o', rw done ran, last, reads)
