-- ===== src/Tests/Library.antt =====
-- Concrete functions for what the code calls of the cJSON library, of the machine's doubles, and of
-- the classes that protobuf generates.
use protobuf_sandbox.Prelude.{
  inr, ℕ, ◌+◌, ◌-◌, ◌^◌, ◌≡◌, refl, sym, ◌∙◌, Bool, true, ◌&&◌, none, some, [], ◌∷◌, map, ltb, leb,
  if◌then◌else◌, Bytes, str_eq, str_eq_iff, str_eq_self, length, arith, codes,
}
use protobuf_sandbox.Prelude.Int.{ℤ, pos, negsuc, pos_part, fits_int}
use protobuf_sandbox.Json.Node.{
  Double, CJson, null, node, cjson_false, cjson_true, cjson_null, cjson_object, append, find_first,
  replace_first, size, drop,
}
use protobuf_sandbox.Json.Library.{
  Floats, CJsonLib, blank, number_item, string_item, has_name, renamed,
}
use protobuf_sandbox.Json.Merge.{Printer}
use protobuf_sandbox.Json.Diff.{FloatTests}
use protobuf_sandbox.Command.Messages.{Protobuf}

-- Doubles that hold the integers, the negative ones behind the others.
abbrev to_int : Double → ℤ
to_int d = if ltb d (2 ^ 31) then pos d else negsuc (d - 2 ^ 31)

abbrev of_int : ℤ → Double
of_int (pos n) = n
of_int (negsuc n) = 2 ^ 31 + n

pub to_int-of_int : (n : ℤ) → fits_int n ≡ true → to_int (of_int n) ≡ n
to_int-of_int (pos n) f = ground arith
to_int-of_int (negsuc n) f = ground arith

abbrev pub floats : Floats
floats = record {
  to_int = to_int;
  of_int = of_int;
  plus = λ a b. a + b;
  to_int-of_int = to_int-of_int;
}

-- Names are compared in lower case.
abbrev lower : ℕ → ℕ
lower c = if leb 65 c && leb c 90 then c + 32 else c

abbrev same : Bytes → Bytes → Bool
same a b = str_eq (map lower a) (map lower b)

pub same_symm : (a b : Bytes) → same a b ≡ true → same b a ≡ true
same_symm a b h =
    (str_eq_iff (map lower b) (map lower a)).1 (sym ((str_eq_iff (map lower a) (map lower b)).0 h))

pub same_trans : (a b c : Bytes) → same a b ≡ true → same b c ≡ true → same a c ≡ true
same_trans a b c h k =
    (str_eq_iff (map lower a) (map lower c)).1
      ((str_eq_iff (map lower a) (map lower b)).0 h ∙ (str_eq_iff (map lower b) (map lower c)).0 k)

abbrev add : CJson → Bytes → CJson → CJson
add null k x = null
add (node o c n) k null = node o c n
add (node o c n) k (node it kids rest) = node o (append c (node (renamed k it) kids null)) n

abbrev replace : CJson → Bytes → CJson → CJson
replace null k x = null
replace (node o c n) k null = node o c n
replace (node o c n) k (node it kids rest) =
    node o (replace_first (has_name same k) (renamed k it) kids c) n

abbrev get : CJson → Bytes → CJson
get null k = null
get (node o c n) k = find_first (has_name same k) c

abbrev array_size : CJson → ℕ
array_size null = 0
array_size (node o c n) = size c

abbrev array_item : CJson → ℕ → CJson
array_item null i = null
array_item (node o c n) i = drop i c

abbrev pub lib : CJsonLib
lib = record {
  floats = floats;
  same = same;
  create_number = λ d. node (number_item floats d) null null;
  create_string = λ s. node (string_item s) null null;
  create_true = node (blank cjson_true) null null;
  create_false = node (blank cjson_false) null null;
  create_null = node (blank cjson_null) null null;
  create_object = node (blank cjson_object) null null;
  add_item_to_object = add;
  replace_item_in_object = replace;
  get_object_item = get;
  get_array_size = array_size;
  get_array_item = array_item;
  same_refl = λ a. str_eq_self (map lower a);
  same_symm = same_symm;
  same_trans = same_trans;
  create_number_lem = λ d. refl;
  create_string_lem = λ s. refl;
  create_true_lem = refl;
  create_false_lem = refl;
  create_null_lem = refl;
  create_object_lem = refl;
  add_lem = λ o c n k it kids. refl;
  replace_lem = λ o c n k it kids. refl;
  get_lem = λ o c n k. refl;
  size_lem = λ o c n. refl;
  item_lem = λ o c n i. refl;
}

-- Every container is printed and read as one without children.
abbrev pub printer : Printer
printer = record {
  print = λ x. some (codes "{}");
  parse = λ s. node (blank cjson_object) null null;
  parse_lem = λ s. inr (blank cjson_object, null, refl);
}

-- A command is its method, numbered by its length; a response is its identifier.
abbrev pub protobuf : Protobuf
protobuf = record {
  parse = λ msg. record { id = pos (length msg); method = msg };
  byte_size = λ cmd. length cmd.method;
  serialize = λ r. elim r.id [ none ↦ 0 ∷ [] | some i ↦ 1 ∷ pos_part i ∷ [] ];
}

-- Doubles differ by a natural number, and are written as one byte.
abbrev distance : Double → Double → Double
distance a b = (a - b) + (b - a)

pub distance_self : (a : Double) → ltb (distance a a) 1 ≡ true
distance_self a = ground arith

abbrev pub float_tests : FloatTests
float_tests = record {
  minus = distance;
  abs = λ a. a;
  less = ltb;
  epsilon = 1;
  is_finite = λ a. true;
  show = λ a. a ∷ [];
  show_index = λ i. i ∷ [];
  minus_self = λ a h. distance_self a;
}
