-- ===== src/Command/Says.antt =====
-- What a response says, by the method of its command (src/CommandProcessor.cpp, src/payload.proto).
use protobuf_sandbox.Prelude.{
  ◌≡◌, refl, Bool, true, false, some, Bytes, codes, contains, if◌then◌else◌, ok, ok_injective,
  >>=_through, subst,
}
use protobuf_sandbox.Json.Node.{Double}
use protobuf_sandbox.Command.Messages.{
  Command, Response, Result, Success, Status, get_center_point, set_center_point, result_of,
  radius_of,
}
use protobuf_sandbox.Command.{answer, answer_query, with_success, with_status}

pub data Kind : Type 0 where
  quits reports starts_or_stops asks unknown : Kind

-- The first of the words that the method holds.
abbrev pub kind_of : Bytes → Kind
kind_of method =
    if contains method (codes "quit")
    then Kind.quits
    else if contains method (codes "status")
    then Kind.reports
    else if contains method (codes "start")
    then Kind.starts_or_stops
    else if contains method (codes "stop")
    then Kind.starts_or_stops
    else if contains method (codes "query")
    then Kind.asks
    else Kind.unknown

-- OK to a status, success to a start or a stop, a radius to a query, failure to what is unknown; to a
-- quit it is whatever it was before.
abbrev pub Says : Kind → Response → Type 0
Says quits r = Unit
Says reports r = (x : Result) × (r.result ≡ some x) × (x.status ≡ some Status.is_ok)
Says starts_or_stops r = (x : Result) × (r.result ≡ some x) × (x.success ≡ some Success.is_true)
Says asks r = (x : Result) × (r.result ≡ some x) × (d : Double) × (x.contact_radius ≡ some d)
Says unknown r = (x : Result) × (r.result ≡ some x) × (x.success ≡ some Success.is_false)

answer_query-Says :
    (cmd : Command) (latest : Result) (r r' : Response)
    → answer_query cmd latest r ≡ ok r'
    → Says Kind.asks r'
unfolding answer_query
answer_query-Says cmd latest r r' e =
    let (x0, e0, f0) = >>=_through _ (get_center_point 0 latest.center_point) e in
    let (a, e1, f1) = >>=_through _ (set_center_point 0 x0 (result_of r).center_point) f0 in
    let (x1, e2, f2) = >>=_through _ (get_center_point 1 latest.center_point) f1 in
    let (b, e3, f3) = >>=_through _ (set_center_point 1 x1 a) f2 in
    subst (Says Kind.asks) (ok_injective f3) (
      record (result_of r) { contact_radius = some (radius_of latest); center_point = b },
      refl,
      radius_of latest,
      refl,
    )

pub answer-Says :
    (cmd : Command) (latest : Result) (r r' : Response)
    → answer cmd latest r ≡ ok r'
    → Says (kind_of cmd.method) r'
unfolding answer
answer-Says cmd latest r r' e =
    go (contains cmd.method (codes "quit")) (contains cmd.method (codes "status"))
      (contains cmd.method (codes "start")) (contains cmd.method (codes "stop"))
      (contains cmd.method (codes "query")) e
  where
    go :
        (quit status start stop query : Bool)
        → (if quit
            then ok r
            else if status
            then ok (with_status cmd Status.is_ok r)
            else if start
            then ok (with_success cmd Success.is_true r)
            else if stop
            then ok (with_success cmd Success.is_true r)
            else if query
            then answer_query cmd latest r
            else ok (with_success cmd Success.is_false r))
          ≡ ok r'
        → Says
            (if quit
              then Kind.quits
              else if status
              then Kind.reports
              else if start
              then Kind.starts_or_stops
              else if stop
              then Kind.starts_or_stops
              else if query
              then Kind.asks
              else Kind.unknown)
            r'
    go true status start stop query f = tt
    go false true start stop query f = subst (Says Kind.reports) (ok_injective f) (_, refl, refl)
    go false false true stop query f =
        subst (Says Kind.starts_or_stops) (ok_injective f) (_, refl, refl)
    go false false false true query f =
        subst (Says Kind.starts_or_stops) (ok_injective f) (_, refl, refl)
    go false false false false true f = answer_query-Says cmd latest r r' f
    go false false false false false f = subst (Says Kind.unknown) (ok_injective f) (_, refl, refl)
