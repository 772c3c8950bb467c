-- ===== src/Strings/Trim.antt =====
-- `strings.TrimSpace`, which cuts off what `unicode.IsSpace` accepts. A space is found by its
-- UTF-8 encoding: at the front of the text, and backwards at its end.
use orascout.Base.{ℕ, zero, suc, List, [], ◌∷◌, map, reverse, length, ◌==◌, if◌then◌else◌, Bytes}
use orascout.Strings.Search.{has_prefix}

-- The encodings of \t \n \v \f \r, the space, U+0085, U+00A0, U+1680, U+2000 to U+200A, U+2028,
-- U+2029, U+202F, U+205F and U+3000.
abbrev pub spaces : List Bytes
spaces =
    (9 ∷ [])
    ∷ (10 ∷ [])
    ∷ (11 ∷ [])
    ∷ (12 ∷ [])
    ∷ (13 ∷ [])
    ∷ (32 ∷ [])
    ∷ (0xC2 ∷ 0x85 ∷ [])
    ∷ (0xC2 ∷ 0xA0 ∷ [])
    ∷ (0xE1 ∷ 0x9A ∷ 0x80 ∷ [])
    ∷ (0xE2 ∷ 0x80 ∷ 0x80 ∷ [])
    ∷ (0xE2 ∷ 0x80 ∷ 0x81 ∷ [])
    ∷ (0xE2 ∷ 0x80 ∷ 0x82 ∷ [])
    ∷ (0xE2 ∷ 0x80 ∷ 0x83 ∷ [])
    ∷ (0xE2 ∷ 0x80 ∷ 0x84 ∷ [])
    ∷ (0xE2 ∷ 0x80 ∷ 0x85 ∷ [])
    ∷ (0xE2 ∷ 0x80 ∷ 0x86 ∷ [])
    ∷ (0xE2 ∷ 0x80 ∷ 0x87 ∷ [])
    ∷ (0xE2 ∷ 0x80 ∷ 0x88 ∷ [])
    ∷ (0xE2 ∷ 0x80 ∷ 0x89 ∷ [])
    ∷ (0xE2 ∷ 0x80 ∷ 0x8A ∷ [])
    ∷ (0xE2 ∷ 0x80 ∷ 0xA8 ∷ [])
    ∷ (0xE2 ∷ 0x80 ∷ 0xA9 ∷ [])
    ∷ (0xE2 ∷ 0x80 ∷ 0xAF ∷ [])
    ∷ (0xE2 ∷ 0x81 ∷ 0x9F ∷ [])
    ∷ (0xE3 ∷ 0x80 ∷ 0x80 ∷ [])
    ∷ []

-- The length of the first encoding that the text begins with, or 0.
unfoldable pub match_length : List Bytes → Bytes → ℕ
unfolding has_prefix
match_length [] s = 0
match_length (e ∷ es) s = if has_prefix s e then length e else match_length es s

-- The number counts the bytes of an encoding that are still to be skipped.
unfoldable pub trim_left : List Bytes → ℕ → Bytes → Bytes
trim_left es n [] = []
trim_left es (suc n) (c ∷ s) = trim_left es n s
trim_left es zero (c ∷ s) = elim (match_length es (c ∷ s)) [
  | zero ↦ c ∷ s
  | suc n ↦ trim_left es n s
]

-- `strings.TrimSpace(s)`
unfoldable pub trim_space : Bytes → Bytes
unfolding trim_left match_length
trim_space s = reverse (trim_left (map reverse spaces) zero (reverse (trim_left spaces zero s)))

-- Drops the leading bytes equal to `c`.
unfoldable pub trim_left_byte : ℕ → Bytes → Bytes
trim_left_byte c [] = []
trim_left_byte c (a ∷ s) = let rest = trim_left_byte c s in if a == c then rest else a ∷ s

-- `strings.Trim(s, c)` for one byte
unfoldable pub trim_byte : Bytes → ℕ → Bytes
unfolding trim_left_byte
trim_byte s c = reverse (trim_left_byte c (reverse (trim_left_byte c s)))
