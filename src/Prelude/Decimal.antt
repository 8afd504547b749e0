-- ===== src/Prelude/Decimal.antt =====
-- `<<` of an `int` to a stream and `>>` of one from it, in decimal, as the C++ library has them.
use Prim.Native.Nat.{ℕ, zero, suc, ◌+◌, ◌-◌, ◌*◌, ◌/◌, ◌%◌, ◌^◌, ◌≤◌, ◌<◌}
use mathlib.Core.Path.{◌≡◌, refl, sym, ap, ◌∙◌}
use mathlib.Core.Logic.{inl, inr}
use mathlib.Core.Bool.{Bool, true, false, ◌&&◌, ◌||◌}
use mathlib.Core.Option.{Option, none, some}
use mathlib.Core.List.{[], ◌∷◌, ◌++◌}
use native.Mathlib.Omega.{arith}
use protobuf_sandbox.Prelude.Tests.{Bool-cases, ◌==◌, leb, ltb, if◌then◌else◌}
use protobuf_sandbox.Prelude.Lists.{All, All-append}
use protobuf_sandbox.Prelude.Text.{Bytes, c_str}
use protobuf_sandbox.Prelude.Int.{ℤ, pos, negsuc, fits_int}

-- The decimal digits of a number below `10 ^ places`.
unfoldable pub digits : ℕ → ℕ → Bytes
digits zero n = []
digits (suc places) n =
    let front = digits places (n / 10) in
    if ltb n 10 then (48 + n) ∷ [] else front ++ (48 + n % 10) ∷ []

-- Ten digits are enough for an `int`.
unfoldable pub show_int : ℤ → Bytes
unfolding digits
show_int (pos n) = digits 10 n
show_int (negsuc n) = 45 ∷ digits 10 (suc n)

abbrev pub is_digit : ℕ → Bool
is_digit c = leb 48 c && leb c 57

-- A stream skips blanks in front of a number.
abbrev pub is_blank : ℕ → Bool
is_blank c = c == 32 || (leb 9 c && leb c 13)

-- The value of the digits in front, behind digits of the value `sum`.
unfoldable pub read_digits : ℕ → Bytes → ℕ
read_digits sum [] = sum
read_digits sum (c ∷ cs) =
    let rest = read_digits (sum * 10 + (c - 48)) cs in if is_digit c then rest else sum

-- Without a digit the stream fails.
unfoldable pub read_unsigned : Bytes → Option ℕ
unfolding read_digits
read_unsigned [] = none
read_unsigned (c ∷ cs) = if is_digit c then some (read_digits 0 (c ∷ cs)) else none

abbrev pub in_range : ℤ → Option ℤ
in_range v = if fits_int v then some v else none

abbrev pub opposite : ℕ → ℤ
opposite zero = pos 0
opposite (suc n) = negsuc n

abbrev pub signed : Bool → Option ℕ → Option ℤ
signed minus none = none
signed false (some n) = in_range (pos n)
signed true (some n) = in_range (opposite n)

-- `(stream >> key).fail()` is `none`: there is no number, or it does not fit.
unfoldable pub read_int : Bytes → Option ℤ
unfolding read_unsigned
read_int [] = none
read_int (c ∷ cs) =
    let skipped = read_int cs in
    if is_blank c
    then skipped
    else if c == 45
    then signed true (read_unsigned cs)
    else if c == 43
    then signed false (read_unsigned cs)
    else signed false (read_unsigned (c ∷ cs))

abbrev Digit : ℕ → Type 0
Digit c = (48 ≤ c) × (c ≤ 57)

digits-AllDigits : (places n : ℕ) → All Digit (digits places n)
unfolding digits
digits-AllDigits zero n = tt
digits-AllDigits (suc places) n = elim (Bool-cases (ltb n 10)) [
  | inl h ↦ rw (h) ((omega arith, ground (arith, h)), tt)
  | inr h ↦ rw (h) (
      All-append Digit (digits places (n / 10)) _ (digits-AllDigits places (n / 10))
        ((omega arith, omega (arith)), tt))
]

read_digits-append :
    (s : Bytes) (sum d : ℕ)
    → All Digit s
    → d < 10
    → read_digits sum (s ++ (48 + d) ∷ []) ≡ read_digits sum s * 10 + d
unfolding read_digits
read_digits-append [] sum d h k = ground arith
read_digits-append (c ∷ cs) sum d (h, hs) k =
    ground (arith, read_digits-append cs (sum * 10 + (c - 48)) d hs k)

read_digits-digits : (places n : ℕ) → n < 10 ^ places → read_digits 0 (digits places n) ≡ n
unfolding digits read_digits
read_digits-digits zero n h = omega (arith, h)
read_digits-digits (suc places) n h = elim (Bool-cases (ltb n 10)) [
  | inl k ↦ rw (k) (ground (arith, k))
  | inr k ↦ rw (k) (
      read_digits-append (digits places (n / 10)) 0 (n % 10) (digits-AllDigits places (n / 10))
        (omega arith)
      ∙ omega (arith, read_digits-digits places (n / 10) (omega (arith, h))))
]

abbrev Front : Bytes → Type 0
Front s = (c : ℕ) × (cs : Bytes) × (s ≡ c ∷ cs) × Digit c

Front-append : (s : Bytes) (c : ℕ) → All Digit s → Digit c → Front (s ++ c ∷ [])
Front-append [] c h k = (c, [], refl, k)
Front-append (d ∷ s) c (h, hs) k = (d, s ++ c ∷ [], refl, h)

digits-Front : (places n : ℕ) → Front (digits (suc places) n)
unfolding digits
digits-Front places n = elim (Bool-cases (ltb n 10)) [
  | inl h ↦ rw (h) (48 + n, [], refl, (omega arith, ground (arith, h)))
  | inr h ↦ rw (h) (
      Front-append (digits places (n / 10)) _ (digits-AllDigits places (n / 10))
        (omega arith, omega (arith)))
]

read_unsigned-digits :
    (places n : ℕ) → n < 10 ^ suc places → read_unsigned (digits (suc places) n) ≡ some n
unfolding read_unsigned
read_unsigned-digits places n h =
    let (c, cs, e, k) = digits-Front places n in
    let value = ap (read_digits 0) (sym e) ∙ read_digits-digits (suc places) n h in
    ap read_unsigned e ∙ ground (arith, k, value)

read_int-digits :
    (places n : ℕ) → n < 10 ^ suc places → read_int (digits (suc places) n) ≡ in_range (pos n)
unfolding read_int
read_int-digits places n h =
    let (c, cs, e, k) = digits-Front places n in
    let value = ap read_unsigned (sym e) ∙ read_unsigned-digits places n h in
    ap read_int e ∙ ground (arith, k, value)

-- An `int` that is written to a stream is read back from it.
pub read_int-show_int : (v : ℤ) → fits_int v ≡ true → read_int (show_int v) ≡ some v
unfolding read_int show_int
read_int-show_int (pos n) h = read_int-digits 9 n (ground (arith, h)) ∙ ground (arith, h)
read_int-show_int (negsuc n) h =
    rw (read_unsigned-digits 9 (suc n) (ground (arith, h))) (ground (arith, h))

c_str-digits : (s : Bytes) → All Digit s → c_str s ≡ s
unfolding c_str
c_str-digits [] h = refl
c_str-digits (c ∷ cs) (h, hs) = ground (arith, h, c_str-digits cs hs)

pub c_str-show_int : (v : ℤ) → c_str (show_int v) ≡ show_int v
unfolding show_int c_str
c_str-show_int (pos n) = c_str-digits (digits 10 n) (digits-AllDigits 10 n)
c_str-show_int (negsuc n) =
    ap (λ s. 45 ∷ s) (c_str-digits (digits 10 (suc n)) (digits-AllDigits 10 (suc n)))
