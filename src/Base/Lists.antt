-- ===== src/Base/Lists.antt =====
-- Lists measured by native numbers, and predicates on their items that compute to tuples.
use Prim.Native.Nat.{ℕ, zero, suc, ◌+◌}
use mathlib.Core.Path.{ap, refl, ◌≡◌}
use mathlib.Core.Logic.{◌↔◌, ◌⊎◌}
use mathlib.Core.Bool.{Bool, true, false, ◌&&◌, ◌||◌}
use mathlib.Core.List.{List, [], ◌∷◌, ◌++◌}
use native.Mathlib.Omega.{arith}

module _ {ℓ} {A : Type ℓ} where
  abbrev pub length : List A → ℕ
  length [] = 0
  length (x ∷ xs) = suc (length xs)

  pub length-append : (xs ys : List A) → length (xs ++ ys) ≡ length xs + length ys
  length-append [] ys = omega arith
  length-append (x ∷ xs) ys = omega (arith, length-append xs ys)

module _ {ℓ} {A : Type ℓ} where
  -- Each item has the property.
  abbrev pub All : (A → Type 0) → List A → Type 0
  All P [] = Unit
  All P (x ∷ xs) = P x × All P xs

  -- Some item has the property.
  abbrev pub Any : (A → Type 0) → List A → Type 0
  Any P [] = ⊥
  Any P (x ∷ xs) = P x ⊎ Any P xs

module _ {ℓ} {A : Type ℓ} where
  pub All-append : (P : A → Type 0) (xs ys : List A) → All P xs → All P ys → All P (xs ++ ys)
  All-append P [] ys hx hy = hy
  All-append P (x ∷ xs) ys hx hy = (hx.0, All-append P xs ys hx.1 hy)

  pub All-append_left : (P : A → Type 0) (xs ys : List A) → All P (xs ++ ys) → All P xs
  All-append_left P [] ys h = tt
  All-append_left P (x ∷ xs) ys h = (h.0, All-append_left P xs ys h.1)

  pub All-append_right : (P : A → Type 0) (xs ys : List A) → All P (xs ++ ys) → All P ys
  All-append_right P [] ys h = h
  All-append_right P (x ∷ xs) ys h = All-append_right P xs ys h.1

module _ {ℓ} {A : Type ℓ} where
  -- The Boolean quantifiers, which the source writes as loops with an early return.
  abbrev pub all : (A → Bool) → List A → Bool
  all p [] = true
  all p (x ∷ xs) = p x && all p xs

  abbrev pub any : (A → Bool) → List A → Bool
  any p [] = false
  any p (x ∷ xs) = p x || any p xs

-- The Boolean quantifiers by the propositional ones, for a test that decides `P` on the items
-- with the property `Q`.
module _ {ℓ} {A : Type ℓ} (test : A → Bool) (P Q : A → Type 0)
    (decides : (x : A) → Q x → (test x ≡ true) ↔ P x) where
  pub any_iff : (xs : List A) → All Q xs → (any test xs ≡ true) ↔ Any P xs
  any_iff [] q = ground arith
  any_iff (x ∷ xs) q = ground (arith, decides x q.0, any_iff xs q.1)

  pub any-false_iff : (xs : List A) → All Q xs → (any test xs ≡ false) ↔ All (λ x. ¬ P x) xs
  any-false_iff [] q = ground arith
  any-false_iff (x ∷ xs) q = ground (arith, decides x q.0, any-false_iff xs q.1)

module _ {ℓ} {A : Type ℓ} where
  pub All-map : (P Q : A → Type 0) → ((x : A) → P x → Q x) → (xs : List A) → All P xs → All Q xs
  All-map P Q f [] h = tt
  All-map P Q f (x ∷ xs) h = (f x h.0, All-map P Q f xs h.1)

module _ {ℓ} {A : Type ℓ} where
  abbrev pub take : ℕ → List A → List A
  take zero xs = []
  take (suc n) [] = []
  take (suc n) (x ∷ xs) = x ∷ take n xs

  abbrev pub drop : ℕ → List A → List A
  drop zero xs = xs
  drop (suc n) [] = []
  drop (suc n) (x ∷ xs) = drop n xs

  pub take-length : (xs ys : List A) → take (length xs) (xs ++ ys) ≡ xs
  take-length [] ys = refl
  take-length (x ∷ xs) ys = ap (◌∷◌ x) (take-length xs ys)

  pub drop-length : (xs : List A) (y : A) (ys : List A) → drop (suc (length xs)) (xs ++ y ∷ ys) ≡ ys
  drop-length [] y ys = refl
  drop-length (x ∷ xs) y ys = drop-length xs y ys
