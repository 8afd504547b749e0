-- ===== src/Prelude/Outcome.antt =====
-- The result of C++ code that may run into undefined behaviour.
use mathlib.Core.Path.{◌≡◌, refl}
use mathlib.Core.Logic.{◌↔◌, ◌⊎◌, inl, inr}

-- `fault`: a NULL pointer or a freed block is used, or a signed sum overflows.
pub data Run {ℓ} (A : Type ℓ) : Type ℓ where
  ok : A → Run A
  fault : Run A

infixl 5 ◌>>=◌
abbrev pub ◌>>=◌ {ℓ κ} : {A : Type ℓ} {B : Type κ} → Run A → (A → Run B) → Run B
ok a >>= f = f a
fault >>= f = fault

-- What a chain that does not fault went through.
pub >>=_through {ℓ κ} :
    {A : Type ℓ} {B : Type κ} {b : B} (next : A → Run B) (first : Run A)
    → (first >>= next) ≡ ok b
    → (mid : A) × (first ≡ ok mid) × (next mid ≡ ok b)
>>=_through next fault e = cc
>>=_through next (ok mid) e = (mid, refl, e)

pub ok_injective {ℓ} : {A : Type ℓ} {a b : A} → ok a ≡ ok b → a ≡ b
ok_injective e = cc

-- To split on a result and keep the equation.
pub Run-cases {ℓ} : {A : Type ℓ} (m : Run A) → (m ≡ fault) ⊎ ((a : A) × (m ≡ ok a))
Run-cases fault = inl refl
Run-cases (ok a) = inr (a, refl)

pub bind_ok_fault_iff {ℓ κ} :
    {A : Type ℓ} {B : Type κ} (m : Run A) (f : A → B)
    → ((m >>= λ a. ok (f a)) ≡ fault) ↔ (m ≡ fault)
bind_ok_fault_iff fault f = (λ e. refl, λ e. refl)
bind_ok_fault_iff (ok a) f = (λ e. cc, λ e. cc)
