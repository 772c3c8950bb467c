-- ===== src/Strings/Digits.antt =====
-- strings.TrimSpace on texts of digits.
use orascout.Base.{
  ◌||◌, ◌+◌, ℕ, List, [], ◌∷◌, map, reverse, ◌≡◌, refl, Bool, true, false, all, All, leb, ltb,
  arith, Bytes, ◌<◌, ◌≤◌,
}
use mathlib.Core.List.{reverse_aux, reverse-reverse}
use orascout.Strings.Search.{has_prefix}
use orascout.Strings.Trim.{trim_space, trim_left, match_length, spaces}

abbrev pub IsDigit : ℕ → Type 0
IsDigit c = (b'0' ≤ c) × (c < b'0' + 10)

-- The encoding of a character that begins with no digit.
abbrev other : Bytes → Bool
other [] = false
other (a ∷ e) = ltb a b'0' || leb (b'0' + 10) a

match_length-digit :
    (es : List Bytes) (c : ℕ) (s : Bytes)
    → IsDigit c
    → all other es ≡ true
    → match_length es (c ∷ s) ≡ 0
unfolding match_length has_prefix
match_length-digit [] c s d h = refl
match_length-digit ([] ∷ es) c s d h = refl
match_length-digit ((a ∷ e) ∷ es) c s d h = let rest = match_length-digit es c s d in ground arith

trim_left-digits :
    (es : List Bytes) (s : Bytes) → All IsDigit s → all other es ≡ true → trim_left es 0 s ≡ s
unfolding trim_left
trim_left-digits es [] h k = refl
trim_left-digits es (c ∷ s) h k = rw (trim_left, match_length-digit es c s h.0 k) refl

pub reverse_aux-digits :
    (s t : Bytes) → All IsDigit s → All IsDigit t → All IsDigit (reverse_aux s t)
reverse_aux-digits [] t h k = k
reverse_aux-digits (c ∷ s) t h k = reverse_aux-digits s (c ∷ t) h.1 (h.0, k)

-- Digits are left as they are.
pub trim_space-digits : (s : Bytes) → All IsDigit s → trim_space s ≡ s
unfolding trim_space
trim_space-digits s h =
    rw
      (
        trim_left-digits spaces s h refl,
        trim_left-digits (map reverse spaces) (reverse s) (reverse_aux-digits s [] h tt) refl,
      )
      (reverse-reverse s)
