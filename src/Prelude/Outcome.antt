-- ===== src/Prelude/Outcome.antt =====
-- A call that returns or raises. `no_fuel` marks a bounded loop that ran out of rounds; the
-- theorems about each loop show that it does not happen.
use mathlib.Core.Path.{◌≡◌, refl}

pub data PyError : Type 0 where
  value_error zero_division type_error no_fuel : PyError

pub data Outcome {ℓ} (A : Type ℓ) : Type ℓ where
  ok : A → Outcome A
  raise : PyError → Outcome A

infixl 5 ◌>>=◌
abbrev pub ◌>>=◌ {ℓ κ} : {A : Type ℓ} {B : Type κ} → Outcome A → (A → Outcome B) → Outcome B
ok a >>= f = f a
raise e >>= f = raise e

-- Inversion of a bind that returns
pub bind-eq-ok {ℓ κ} :
    {A : Type ℓ} {B : Type κ} (m : Outcome A) (f : A → Outcome B) {b : B}
    → (m >>= f) ≡ ok b
    → (a : A) × (m ≡ ok a) × (f a ≡ ok b)
bind-eq-ok (ok a) f h = (a, refl, h)
bind-eq-ok (raise e) f h = cc
