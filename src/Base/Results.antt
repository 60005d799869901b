-- ===== src/Base/Results.antt =====
-- Rust's `Result`, the outcome of code that may stop the program or leave defined behaviour, and
-- `Poll`.
use mathlib.Core.Path.{◌≡◌, refl}
use mathlib.Core.Logic.{◌⊎◌, inl, inr}
use mathlib.Core.Bool.{Bool, true, false}

pub data Result {ℓ κ} (A : Type ℓ) (E : Type κ) : Type (ℓ ⊔ κ) where
  ok : A → Result A E
  err : E → Result A E

-- `panic`: an assertion, an `expect` or an index out of bounds. `abort`: `std::process::abort`.
-- `uninit`: a read of a slot that holds no value, which Rust leaves undefined.
pub data Fault : Type 0 where
  panic abort uninit : Fault

pub data Run {ℓ} (A : Type ℓ) : Type ℓ where
  done : A → Run A
  fault : Fault → Run A

infixl 5 ◌>>=◌
abbrev pub ◌>>=◌ {ℓ κ} : {A : Type ℓ} {B : Type κ} → Run A → (A → Run B) → Run B
done a >>= f = f a
fault e >>= f = fault e

-- The future protocol's `Poll`.
pub data Poll {ℓ} (A : Type ℓ) : Type ℓ where
  ready : A → Poll A
  pending : Poll A

abbrev pub is_ready {ℓ} : {A : Type ℓ} → Poll A → Bool
is_ready (ready a) = true
is_ready pending = false

pub Poll-cases {ℓ} : {A : Type ℓ} (p : Poll A) → (p ≡ pending) ⊎ ((a : A) × (p ≡ ready a))
Poll-cases (ready a) = inr (a, refl)
Poll-cases pending = inl refl
