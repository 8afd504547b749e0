-- ===== src/Command/Messages.antt =====
-- The messages of src/payload.proto, and what the code calls of the classes generated from it.
use protobuf_sandbox.Prelude.{
  ℕ, zero, suc, Option, none, some, List, [], ◌∷◌, Bytes, Run, ok, fault, ◌>>=◌,
}
use protobuf_sandbox.Prelude.Int.{ℤ}
use protobuf_sandbox.Json.Node.{Double}

-- `message Command`.
pub record Command : Type 0 where
  pub id : ℤ
  pub method : Bytes

pub data Success : Type 0 where
  is_true is_false : Success

pub data Status : Type 0 where
  is_ok is_error : Status

-- `message Result`.
pub record Result : Type 0 where
  pub success : Option Success
  pub status : Option Status
  pub contact_radius : Option Double
  pub center_point : List Double

-- `message Response`.
pub record Response : Type 0 where
  pub id : Option ℤ
  pub result : Option Result

-- A new message has no field set.
abbrev pub empty_result : Result
empty_result = record { success = none; status = none; contact_radius = none; center_point = [] }

-- `mutable_result()`: the result that is there, or a new one.
abbrev pub result_of : Response → Result
result_of r = elim r.result [ none ↦ empty_result | some x ↦ x ]

-- `center_point(i)` and `set_center_point(i, v)`: an index behind the last element is undefined
-- behaviour.
unfoldable pub get_center_point : ℕ → List Double → Run Double
get_center_point i [] = fault
get_center_point zero (x ∷ xs) = ok x
get_center_point (suc i) (x ∷ xs) = get_center_point i xs

unfoldable pub set_center_point : ℕ → Double → List Double → Run (List Double)
set_center_point i v [] = fault
set_center_point zero v (x ∷ xs) = ok (v ∷ xs)
set_center_point (suc i) v (x ∷ xs) = do rest ← set_center_point i v xs; ok (x ∷ rest)

-- The default of an unset `double` is 0, whose bit pattern is 0.
abbrev pub radius_of : Result → Double
radius_of r = elim r.contact_radius [ none ↦ 0 | some d ↦ d ]

-- The wire format of protobuf: `ParseFromString` into a new command, `ByteSize`, `SerializeToString`.
pub record Protobuf : Type 0 where
  pub parse : Bytes → Command
  pub byte_size : Command → ℕ
  pub serialize : Response → Bytes
