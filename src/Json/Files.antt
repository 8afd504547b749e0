-- ===== src/Json/Files.antt =====
-- `writeJSONToFile`, `readJSONFromFile`, `JSON2Str` and the printing of src/CNT_JSON.c. What the system
-- answers is an argument.
use protobuf_sandbox.Prelude.{
  Bool, true, false, not, ◌||◌, Option, none, some, [], ◌∷◌, ◌++◌, if◌then◌else◌, Bytes, c_str,
  codes, Run, ok, fault,
}
use protobuf_sandbox.Json.Node.{CJson, null, node}
use protobuf_sandbox.Json.Merge.{Printer}

-- The part behind the printing: the bytes written, where the file opens, and the value returned.
-- `opens` and `bad` are what `is_open` and `bad` answer.
unfoldable pub write_text : Bytes → Bool → Bool → Option Bytes × Bool
write_text [] opens bad = (none, false)
write_text (c ∷ s) true bad = (some (c ∷ s), not bad)
write_text (c ∷ s) false bad = (none, false)

-- `writeJSONToFile`; `strlen` of NULL faults.
unfoldable pub write_json_to_file : Printer → CJson → Bool → Bool → Run (Option Bytes × Bool)
unfolding write_text
write_json_to_file pr o opens bad = elim (pr.print o) [
  | none ↦ fault
  | some text ↦ ok (write_text (c_str text) opens bad)
]

-- `JSON2Str`, over `cJSON_PrintUnformatted`; NULL is used all the same.
unfoldable pub json_2_str : (CJson → Option Bytes) → CJson → Run Bytes
json_2_str print o = elim (print o) [ none ↦ fault | some text ↦ ok (c_str text) ]

-- What `printJSON` and `printJSONUnformatted` print, each over its printer: nothing for NULL.
unfoldable pub print_json : (CJson → Option Bytes) → CJson → Run Bytes
print_json print null = ok []
print_json print (node it c n) = elim (print (node it c n)) [
  | none ↦ fault
  | some text ↦ ok (c_str text ++ codes "\n")
]

-- The bits of `st_mode` that are tested.
pub record FileMode : Type 0 where
  pub others : Bool
  pub group : Bool
  pub owner : Bool

-- A file as `stat` and `open` find it: its mode, and what it holds where it opens.
pub record File : Type 0 where
  pub mode : Option FileMode
  pub content : Option Bytes

-- `refused` returns false and leaves the object as it was; `threw` is `std::bad_array_new_length`;
-- `parsed` stores the object, and returns the value.
pub data FileRead : Type 0 where
  refused : FileRead
  threw : FileRead
  parsed : CJson → Bool → FileRead

abbrev pub is_item : CJson → Bool
is_item null = false
is_item (node it c n) = true

-- The part behind `open`, whose test `(JSONFile.is_open(), ifstream::binary)` is always true. A file
-- that is not open has the size -1. The buffer has no NUL of its own: the parser reads on into the
-- bytes `beyond` it.
unfoldable pub read_opened : (Bytes → CJson) → Option Bytes → Bytes → FileRead
read_opened parse none beyond = FileRead.threw
read_opened parse (some content) beyond =
    let o = parse (c_str (content ++ beyond)) in FileRead.parsed o (is_item o)

-- `readJSONFromFile`; `parse` is `cJSON_Parse`.
unfoldable pub read_json_from_file : (Bytes → CJson) → File → Bytes → FileRead
unfolding read_opened
read_json_from_file parse f beyond = elim f.mode [
  | none ↦ FileRead.refused
  | some mode ↦
      if mode.others || (mode.group || mode.owner)
      then read_opened parse f.content beyond
      else FileRead.refused
]
