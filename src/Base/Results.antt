-- ===== src/Base/Results.antt =====
-- `(T, error)` results. An error is the case of the source that built it: its text is not modelled.
use mathlib.Core.Path.{◌≡◌, refl}
use mathlib.Core.Bool.{Bool, true, false}

pub data Result {ℓ κ} (E : Type κ) (A : Type ℓ) : Type (ℓ ⊔ κ) where
  ok : A → Result E A
  err : E → Result E A

module _ {ℓ κ μ} {E : Type μ} {A : Type ℓ} {B : Type κ} where
  infixl 5 ◌>>=◌
  abbrev pub ◌>>=◌ : Result E A → (A → Result E B) → Result E B
  ok a >>= f = f a
  err e >>= f = err e

  pub bind-eq-ok :
      (m : Result E A) (f : A → Result E B) {b : B}
      → (m >>= f) ≡ ok b
      → (a : A) × (m ≡ ok a) × (f a ≡ ok b)
  bind-eq-ok (ok a) f h = (a, refl, h)
  bind-eq-ok (err e) f h = cc

module _ {ℓ μ} {E : Type μ} {B : Type ℓ} where
  infixl 5 ◌>>◌
  abbrev pub ◌>>◌ : Result E (Unit {0}) → Result E B → Result E B
  m >> k = m >>= λ _. k

module _ {μ} {E : Type μ} where
  -- `if failing { return e }`
  abbrev pub reject_if : Bool → E → Result E (Unit {0})
  reject_if true e = err e
  reject_if false e = ok tt
