-- ===== src/Prelude/Postcondition.antt =====
-- Postconditions of code that may run into undefined behaviour, one rule for each way to build it.
use mathlib.Core.Path.{◌≡◌, refl}
use mathlib.Core.Bool.{Bool, true, false}
use protobuf_sandbox.Prelude.Tests.{if◌then◌else◌}
use protobuf_sandbox.Prelude.Outcome.{Run, ok, fault}

-- `P` holds of what is returned, and `E` holds where the code faults.
pub data Post {ℓ κ} {A : Type ℓ} (P : A → Type κ) (E : Type κ) : Run A → Type (ℓ ⊔ κ) where
  returns : {a : A} → P a → Post P E (ok a)
  faults : E → Post P E fault

module _ {ℓ κ} {A : Type ℓ} {P : A → Type κ} {E : Type κ} where
  pub Post-of_ok : {a : A} → Post P E (ok a) → P a
  Post-of_ok (returns h) = h

  pub Post-if :
      (b : Bool) {m n : Run A}
      → (b ≡ true → Post P E m)
      → (b ≡ false → Post P E n)
      → Post P E (if b then m else n)
  Post-if true k l = k refl
  Post-if false k l = l refl
