-- ===== src/Base/Text.antt =====
-- Go strings: lists of bytes, compared byte by byte.
use Prim.Native.Nat.{ℕ}
use Prim.Native.Char.{code}
use Prim.Native.String.{String}
use mathlib.Core.Path.{◌≡◌, refl}
use mathlib.Core.Logic.{◌↔◌, ◌≢◌, inl, inr}
use mathlib.Core.Bool.{Bool, true, false, ◌&&◌}
use mathlib.Core.List.{List, [], ◌∷◌}
use native.Mathlib.Omega.{arith}
use orascout.Base.Tests.{◌==◌, Bool-cases}

abbrev pub Bytes : Type 0
Bytes = List ℕ

-- The bytes of a literal of the source, all of which are ASCII.
unfoldable pub codes : String → Bytes
codes String.[] = []
codes (String.◌∷◌ c s) = code c ∷ codes s

-- `==` on strings
abbrev pub eqb : Bytes → Bytes → Bool
eqb [] [] = true
eqb (a ∷ s) (b ∷ t) = a == b && eqb s t
eqb _ _ = false

pub eqb_iff : (s t : Bytes) → (eqb s t ≡ true) ↔ (s ≡ t)
eqb_iff [] [] = ground arith
eqb_iff (a ∷ s) [] = ground arith
eqb_iff [] (b ∷ t) = ground arith
eqb_iff (a ∷ s) (b ∷ t) = ground (arith, eqb_iff s t)

pub eqb_refl : (s : Bytes) → eqb s s ≡ true
eqb_refl s = (eqb_iff s s).1 refl

pub eqb_ne : (s t : Bytes) → s ≢ t → eqb s t ≡ false
eqb_ne s t n = elim (Bool-cases (eqb s t)) [
  | inl same ↦ absurd (n ((eqb_iff s t).0 same))
  | inr other ↦ other
]

pub ne_of_eqb : (s t : Bytes) → eqb s t ≡ false → s ≢ t
ne_of_eqb s t other e = cc (other, eqb_refl s, e)

-- `s == ""`
abbrev pub is_empty : Bytes → Bool
is_empty [] = true
is_empty _ = false
