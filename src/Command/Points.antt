-- ===== src/Command/Points.antt =====
-- Where `processCommands` and `programLoop` read or write coordinates that are not there: the branch
-- of `query`, and the worker.
use protobuf_sandbox.Prelude.{
  ◌≡◌, ◌↔◌, Bool, true, not, ◌&&◌, ◌||◌, some, List, [], ◌∷◌, arith, ltb, codes, contains, length,
  Bytes, ok, fault, ◌>>=◌,
}
use protobuf_sandbox.Json.Node.{Double}
use protobuf_sandbox.Command.Messages.{
  Command, Response, Result, result_of, radius_of, set_center_point, get_center_point,
}
use protobuf_sandbox.Command.{answer, answer_query}

abbrev pub lacks_point : Result → Bool
lacks_point r = ltb (length r.center_point) 2

-- The methods that come to the branch of `query`.
abbrev pub is_query : Bytes → Bool
is_query method =
    not (contains method (codes "quit"))
    && (not (contains method (codes "status"))
        && (not (contains method (codes "start"))
            && (not (contains method (codes "stop")) && contains method (codes "query"))))

-- A command whose answer reads or writes a coordinate that is not there.
abbrev pub lacks_answer : Command → Result → Response → Bool
lacks_answer cmd latest r = is_query cmd.method && (lacks_point latest || lacks_point (result_of r))

answer_query_fault_iff :
    (cmd : Command) (latest : Result) (r : Response)
    → (answer_query cmd latest r ≡ fault)
      ↔ ((lacks_point latest || lacks_point (result_of r)) ≡ true)
unfolding answer_query set_center_point get_center_point
answer_query_fault_iff cmd latest r = go latest.center_point (result_of r).center_point
  where
    full : List Double → Response
    full b = record {
      id = some cmd.id;
      result =
          some
            (record (result_of r) { contact_radius = some (radius_of latest); center_point = b });
    }

    go :
        (xs ys : List Double)
        → ((get_center_point 0 xs >>= λ x0. set_center_point 0 x0 ys >>= λ a.
              get_center_point 1 xs >>= λ x1. set_center_point 1 x1 a >>= λ b. ok (full b))
            ≡ fault)
          ↔ ((ltb (length xs) 2 || ltb (length ys) 2) ≡ true)
    go [] ys = ground arith
    go (x ∷ []) [] = ground arith
    go (x ∷ []) (a ∷ ys) = ground arith
    go (x ∷ y ∷ xs) [] = ground arith
    go (x ∷ y ∷ xs) (a ∷ []) = ground arith
    go (x ∷ y ∷ xs) (a ∷ b ∷ ys) = ground arith

-- An answer is undefined behaviour exactly for a `query` where the latest result or the response has
-- less than two coordinates.
pub answer_fault_iff :
    (cmd : Command) (latest : Result) (r : Response)
    → (answer cmd latest r ≡ fault) ↔ (lacks_answer cmd latest r ≡ true)
unfolding answer
answer_fault_iff cmd latest r = ground (arith, answer_query_fault_iff cmd latest r)
