-- ===== src/Base/Int.antt =====
-- Signed numbers over the native ones: `time.Duration` counts nanoseconds, and may be negative.
use Prim.Native.Nat.{ℕ, suc, ◌+◌, ◌-◌, ◌^◌}
use mathlib.Core.Bool.{Bool, true, false}
use orascout.Base.Tests.{ltb, leb, ◌==◌, if◌then◌else◌}

-- `negsuc n` is -(n + 1).
pub data ℤ : Type 0 where
  pos : ℕ → ℤ
  negsuc : ℕ → ℤ

abbrev pub ltb_ℤ : ℤ → ℤ → Bool
ltb_ℤ (pos a) (pos b) = ltb a b
ltb_ℤ (pos a) (negsuc b) = false
ltb_ℤ (negsuc a) (pos b) = true
ltb_ℤ (negsuc a) (negsuc b) = ltb b a

abbrev pub eqb_ℤ : ℤ → ℤ → Bool
eqb_ℤ (pos a) (pos b) = a == b
eqb_ℤ (negsuc a) (negsuc b) = a == b
eqb_ℤ _ _ = false

abbrev pub is_zero : ℤ → Bool
is_zero (pos a) = a == 0
is_zero (negsuc a) = false

-- a - b
abbrev pub sub_ℕ : ℕ → ℕ → ℤ
sub_ℕ a b = if leb b a then pos (a - b) else negsuc (b - a - 1)

infixl 65 ◌+ℤ◌
unfoldable pub ◌+ℤ◌ : ℤ → ℤ → ℤ
pos a +ℤ pos b = pos (a + b)
pos a +ℤ negsuc b = sub_ℕ a (suc b)
negsuc a +ℤ pos b = sub_ℕ b (suc a)
negsuc a +ℤ negsuc b = negsuc (suc (a + b))

-- The sum of two `int64` values, which wraps around.
unfoldable pub wrap64 : ℤ → ℤ
wrap64 (pos a) = if ltb a (2 ^ 63) then pos a else negsuc (2 ^ 64 - 1 - a)
wrap64 (negsuc a) = if ltb a (2 ^ 63) then negsuc a else pos (2 ^ 64 - 1 - a)
