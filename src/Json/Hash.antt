-- ===== src/Json/Hash.antt =====
-- `createStringHash` of src/CNT_JSON.c, in the arithmetic of a 32-bit `int`.
use Prim.Native.Nat.{digits, differ, bit_xor, bit_xor-bitwise}
use protobuf_sandbox.Prelude.{
  ℕ, zero, suc, ◌+◌, ◌-◌, ◌*◌, ◌/◌, ◌%◌, ◌≤◌, ◌<◌, ◌^◌, ◌≡◌, refl, subst, Bool, true, [], ◌∷◌,
  arith, ltb, if◌then◌else◌, length, Bytes, All, Run, ok, fault, ◌>>=◌,
}

-- `33 * hash ^ key[i]`; a product that is out of range is undefined behaviour. The value never is
-- negative, as a product in range and a byte are not.
unfoldable pub hash_step : ℕ → ℕ → Run ℕ
hash_step hash c = if ltb (33 * hash) (2 ^ 31) then ok (bit_xor (33 * hash) c) else fault

-- The `for` loop, from the value that is there.
unfoldable pub hash_from : ℕ → Bytes → Run ℕ
unfolding hash_step
hash_from hash [] = ok hash
hash_from hash (c ∷ cs) = do next ← hash_step hash c; hash_from next cs

-- The hash and the value returned.
unfoldable pub create_string_hash : Bytes → Run (ℕ × Bool)
unfolding hash_from
create_string_hash s = do hash ← hash_from 0 s; ok (hash, true)

differ-bounded : (a b : ℕ) → differ a b ≤ a + b
differ-bounded zero b = omega arith
differ-bounded (suc a) zero = omega arith
differ-bounded (suc a) (suc b) = omega (arith, differ-bounded a b)

-- The digits of an exclusive or are at most those of a sum.
xor_digits-bounded : (n a b : ℕ) → digits (λ b. b) differ n a b ≤ a + b
xor_digits-bounded zero a b = omega arith
xor_digits-bounded (suc n) zero b = omega arith
xor_digits-bounded (suc n) (suc a) b =
    omega (arith, xor_digits-bounded n (suc a / 2) (b / 2), differ-bounded (suc a % 2) (b % 2))

bit_xor-bounded : (a b : ℕ) → bit_xor a b ≤ a + b
bit_xor-bounded a b = omega (arith, bit_xor-bitwise a b, xor_digits-bounded a a b)

-- What the hash of so many bytes is at most.
abbrev most : ℕ → ℕ
most zero = 0
most (suc count) = 33 * most count + 255

most_up : (more count : ℕ) → more + count ≡ 5 → most count ≤ 311860155
most_up zero count e =
    let five : 5 ≡ count = omega (arith, e) in subst (λ k. most k ≤ 311860155) five (omega arith)
most_up (suc more) count e = omega (arith, most_up more (suc count) (omega (arith, e)))

most_five : (count : ℕ) → count ≤ 5 → most count ≤ 311860155
most_five count h = most_up (5 - count) count (omega (arith, h))

abbrev pub IsByte : ℕ → Type 0
IsByte c = c < 256

hash_step-bounded :
    (hash c bound : ℕ)
    → 33 * hash + 255 ≤ bound
    → bound ≤ 311860155
    → IsByte c
    → (next : ℕ) × (hash_step hash c ≡ ok next) × (next ≤ bound)
unfolding hash_step
hash_step-bounded hash c bound h k b = (
  bit_xor (33 * hash) c,
  ground (arith, h, k),
  omega (arith, h, b, bit_xor-bounded (33 * hash) c),
)

hash_from-bounded :
    (s : Bytes) (hash count : ℕ)
    → count + length s ≤ 5
    → hash ≤ most count
    → All IsByte s
    → (last : ℕ) × (hash_from hash s ≡ ok last) × (last ≤ 311860155)
unfolding hash_from
hash_from-bounded [] hash count l h b =
    (hash, refl, omega (arith, h, most_five count (omega (arith, l))))
hash_from-bounded (c ∷ s) hash count l h (b, bs) =
    let (next, e, k) =
      hash_step-bounded hash c (most (suc count)) (omega (arith, h))
        (most_five (suc count) (omega (arith, l))) b in
    let (last, f, m) = hash_from-bounded s next (suc count) (omega (arith, l)) k bs in
    (last, rw (e) f, m)

-- The hash of a text of five bytes at most is computed without overflow, is in the range of `int`, and
-- `createStringHash` returns true.
pub create_string_hash-in_range :
    (s : Bytes)
    → length s ≤ 5
    → All IsByte s
    → (hash : ℕ) × (create_string_hash s ≡ ok (hash, true)) × (hash < 2 ^ 31)
unfolding create_string_hash
create_string_hash-in_range s l b =
    let (hash, e, m) = hash_from-bounded s 0 0 (omega (arith, l)) (omega arith) b in
    (hash, rw (e) refl, omega (arith, m))
