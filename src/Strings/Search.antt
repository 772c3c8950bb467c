-- ===== src/Strings/Search.antt =====
-- Searching, cutting, splitting and replacing.
use orascout.Base.{
  ℕ, zero, suc, ◌-◌, Bool, true, false, ◌&&◌, ◌||◌, List, [], ◌∷◌, ◌++◌, Option, none, some,
  reverse, length, ◌==◌, if◌then◌else◌, Bytes, is_empty,
}

-- `strings.HasPrefix(s, prefix)`
unfoldable pub has_prefix : Bytes → Bytes → Bool
has_prefix s [] = true
has_prefix [] (b ∷ prefix) = false
has_prefix (a ∷ s) (b ∷ prefix) = a == b && has_prefix s prefix

-- `strings.Contains(s, substr)`
unfoldable pub contains : Bytes → Bytes → Bool
unfolding has_prefix
contains [] sub = is_empty sub
contains (a ∷ s) sub = has_prefix (a ∷ s) sub || contains s sub

-- What follows a prefix, if it stands there.
unfoldable pub cut_prefix : Bytes → Bytes → Option Bytes
cut_prefix s [] = some s
cut_prefix [] (b ∷ prefix) = none
cut_prefix (a ∷ s) (b ∷ prefix) = let rest = cut_prefix s prefix in if a == b then rest else none

abbrev or_whole : Bytes → Option Bytes → Bytes
or_whole s none = s
or_whole s (some rest) = rest

-- `strings.TrimPrefix(s, prefix)`
unfoldable pub trim_prefix : Bytes → Bytes → Bytes
unfolding cut_prefix
trim_prefix s prefix = or_whole s (cut_prefix s prefix)

-- `strings.TrimSuffix(s, suffix)`
unfoldable pub trim_suffix : Bytes → Bytes → Bytes
unfolding trim_prefix
trim_suffix s suffix = reverse (trim_prefix (reverse s) (reverse suffix))

-- `strings.Index(s, c)` for one byte, plus one: 0 stands for Go's -1.
unfoldable pub index_suc : Bytes → ℕ → ℕ
index_suc [] c = 0
index_suc (a ∷ s) c = let i = index_suc s c in if a == c then 1 else if i == 0 then 0 else suc i

-- `strings.LastIndex(s, c)` for one byte, plus one.
unfoldable pub last_index_suc : Bytes → ℕ → ℕ
last_index_suc [] c = 0
last_index_suc (a ∷ s) c =
    let i = last_index_suc s c in if i == 0 then if a == c then 1 else 0 else suc i

-- `strings.Cut(s, c)` for one byte: what stands before it and after it, or `none`.
unfoldable pub cut : Bytes → ℕ → Option (Bytes × Bytes)
cut [] c = none
cut (a ∷ s) c = elim (a == c) [
  | true ↦ some ([], s)
  | false ↦ elim (cut s c) [ none ↦ none | some (before, after) ↦ some (a ∷ before, after) ]
]

abbrev pub cons_head : ℕ → List Bytes → List Bytes
cons_head a [] = (a ∷ []) ∷ []
cons_head a (h ∷ t) = (a ∷ h) ∷ t

-- `strings.Split(s, c)` for one byte. The result is never empty.
unfoldable pub split : Bytes → ℕ → List Bytes
split [] c = [] ∷ []
split (a ∷ s) c = let rest = split s c in if a == c then [] ∷ rest else cons_head a rest

-- The scan of `replace_all`; the number counts the bytes of `old` that are still to be skipped.
replace_from : ℕ → Bytes → Bytes → Bytes → Bytes
replace_from n [] old new = []
replace_from (suc n) (a ∷ s) old new = replace_from n s old new
replace_from zero (a ∷ s) old new = elim (has_prefix (a ∷ s) old) [
  | true ↦ new ++ replace_from (length old - 1) s old new
  | false ↦ a ∷ replace_from zero s old new
]

-- `strings.ReplaceAll(s, old, new)` for a non-empty `old`.
unfoldable pub replace_all : Bytes → Bytes → Bytes → Bytes
unfolding replace_from has_prefix
replace_all s old new = replace_from zero s old new
