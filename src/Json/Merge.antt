-- ===== src/Json/Merge.antt =====
-- `mergeJSONObjects` and `copyItem` of src/CNT_JSON.c. Both put a copy of an item into an object
-- under a key: replaced if `doesAttributeExist` finds the key, added if not.
pub mod Copies
pub mod Loop
pub mod Values
use protobuf_sandbox.Prelude.{
  ◌⊎◌, ◌≡◌, ℕ, zero, suc, Bool, true, false, Option, none, some, [], ◌∷◌, ◌==◌, if◌then◌else◌,
  Bytes, Run, ok, fault, ◌>>=◌,
}
use protobuf_sandbox.Json.Node.{
  Item, CJson, null, node, cjson_false, cjson_true, cjson_null, cjson_number, cjson_string,
  is_container,
}
use protobuf_sandbox.Json.Library.{CJsonLib}
use protobuf_sandbox.Json.Getters.{does_attribute_exist}

-- `cJSON_Print` and `cJSON_Parse`: the text of an item, and the item of a text. NULL is `none` for
-- the first and `null` for the second.
-- What the parser reads is one item, with no sibling.
pub record Printer : Type 0 where
  pub print : CJson → Option Bytes
  pub parse : Bytes → CJson
  pub parse_lem :
      (s : Bytes)
      → (parse s ≡ null) ⊎ ((it : Item) × (kids : CJson) × (parse s ≡ node it kids null))

-- What a pass over one source item does with its copy.
pub data Copied : Type 0 where
  copy : CJson → Copied
  nothing : Copied
  bad_type : Copied

-- The text of a container is printed and parsed again; no text or an empty one copies nothing.
unfoldable pub reparse : Printer → Option Bytes → Copied
reparse pr none = Copied.nothing
reparse pr (some []) = Copied.nothing
reparse pr (some (c ∷ s)) = Copied.copy (pr.parse (c ∷ s))

-- The `switch` on the type of the source item. `cJSON_CreateString(NULL)` faults.
unfoldable pub copy_of : CJsonLib → Printer → Item → CJson → CJson → Run Copied
unfolding reparse
copy_of lib pr it c n =
    if cjson_false == it.kind
    then ok (Copied.copy lib.create_false)
    else if cjson_true == it.kind
    then ok (Copied.copy lib.create_true)
    else if cjson_null == it.kind
    then ok (Copied.copy lib.create_null)
    else if cjson_number == it.kind
    then ok (Copied.copy (lib.create_number it.valuedouble))
    else if cjson_string == it.kind
    then elim it.valuestring [ none ↦ fault | some s ↦ ok (Copied.copy (lib.create_string s)) ]
    else if is_container it
    then ok (reparse pr (pr.print (node it c n)))
    else ok Copied.bad_type

-- `cJSON_ReplaceItemInObject`, which stores into the new item: a NULL one is a fault.
unfoldable pub replace_with : CJsonLib → CJson → Bytes → CJson → Run CJson
replace_with lib target key null = fault
replace_with lib target key (node it c n) = ok (lib.replace_item_in_object target key (node it c n))

-- Replace by name if the attribute exists, add it if not.
unfoldable pub put_copy : CJsonLib → CJson → Bytes → CJson → Run CJson
unfolding replace_with
put_copy lib target key new = do
  there ← does_attribute_exist target key false
  if there then replace_with lib target key new else ok (lib.add_item_to_object target key new)

-- One source item under a key: `none` is the `return false` of the default case.
unfoldable pub put_item_copy :
    CJsonLib → Printer → CJson → Bytes → Item → CJson → CJson → Run (Option CJson)
put_item_copy lib pr target key it c n = do
  what ← copy_of lib pr it c n
  elim what [
    | Copied.copy new ↦ (put_copy lib target key new >>= λ t. ok (some t))
    | Copied.nothing ↦ ok (some target)
    | Copied.bad_type ↦ ok none
  ]

-- What the loop of `mergeJSONObjects` comes to: it returns, or its fuel has run out.
pub data Merged : Type 0 where
  returned : CJson → Bool → Merged
  running : CJson → CJson → Merged

-- The loop. `continue` on an item without a name leaves `item` as it is.
unfoldable pub merge_loop : CJsonLib → Printer → ℕ → CJson → CJson → Run Merged
unfolding put_item_copy
merge_loop lib pr fuel target null = ok (Merged.returned target true)
merge_loop lib pr zero target (node it c n) = ok (Merged.running target (node it c n))
merge_loop lib pr (suc fuel) target (node it c n) = elim it.name [
  | none ↦ merge_loop lib pr fuel target (node it c n)
  | some [] ↦ merge_loop lib pr fuel target (node it c n)
  | some (b ∷ s) ↦
      (put_item_copy lib pr target (b ∷ s) it c n
        >>= elim [ none ↦ ok (Merged.returned target false) | some t ↦ merge_loop lib pr fuel t n ])
]

-- `mergeJSONObjects(target, source)`, which returns false at once on a NULL argument.
unfoldable pub merge_json_objects : CJsonLib → Printer → ℕ → CJson → CJson → Run Merged
unfolding merge_loop
merge_json_objects lib pr fuel null source = ok (Merged.returned null false)
merge_json_objects lib pr fuel (node it c n) null = ok (Merged.returned (node it c n) false)
merge_json_objects lib pr fuel (node it c n) (node sit sc sn) =
    merge_loop lib pr fuel (node it c n) sc

-- `copyItem`: the target as it is left, and the value returned.
unfoldable pub copy_item : CJsonLib → Printer → CJson → Bytes → CJson → Bytes → Run (CJson × Bool)
unfolding put_item_copy
copy_item lib pr target target_key null source_key = fault
copy_item lib pr target target_key (node it c n) source_key =
    elim (lib.get_object_item (node it c n) source_key) [
      | null ↦ ok (target, false)
      | node x kids rest ↦
          (put_item_copy lib pr target target_key x kids rest
            >>= elim [ none ↦ ok (target, false) | some t ↦ ok (t, true) ])
    ]
