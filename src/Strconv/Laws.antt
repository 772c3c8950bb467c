-- ===== src/Strconv/Laws.antt =====
-- `ParseUint` reads a number by the place value of its digits.
use native.Mathlib.Nat.{pow-suc, pow-zero}
use orascout.Base.{
  eqb_iff, false, eqb, any, codes, Bool, Any, sym, ◌∙◌, suc, ℕ, ◌+◌, ◌-◌, ◌*◌, ◌^◌, ◌<◌, ◌≡◌, ◌≢◌,
  ◌↔◌, true, List, [], ◌∷◌, some, none, All, arith, refl, length, Bytes, Option, Bool-cases, inl,
  inr,
}
use orascout.Strconv.{parse_bool, true_words, false_words, fits, is_digit, parse_digits, parse_uint}

-- Each digit counts as often as the base says at its place.
abbrev pub place_value : ℕ → Bytes → ℕ
place_value base [] = 0
place_value base (c ∷ s) = (c - b'0') * base ^ length s + place_value base s

regroup : (acc base d p v : ℕ) → (acc * base + d) * p + v ≡ acc * (p * base) + (d * p + v)
regroup acc base d p v = omega arith

next_place :
    (base acc d k v : ℕ) → (acc * base + d) * base ^ k + v ≡ acc * base ^ suc k + (d * base ^ k + v)
next_place base acc d k v = rw pow-suc (regroup acc base d (base ^ k) v)

no_place : (base acc : ℕ) → acc * base ^ 0 + 0 ≡ acc
no_place base acc = rw pow-zero (omega arith)

parse_digits_iff :
    (base acc : ℕ) (s : Bytes) {n : ℕ}
    → (parse_digits base acc s ≡ some n)
      ↔ (All (λ c. is_digit base c ≡ true) s × (n ≡ acc * base ^ length s + place_value base s))
unfolding parse_digits
parse_digits_iff base acc [] {n} = rw (no_place base acc) (λ h. (tt, ground arith), λ h. cc (h.1))
parse_digits_iff base acc (c ∷ s) {n} = elim (Bool-cases (is_digit base c)) [
  | inl digit ↦
      let (read, print) = parse_digits_iff base (acc * base + (c - b'0')) s in
      let step = next_place base acc (c - b'0') (length s) (place_value base s) in
      rw digit (λ h. ((refl, (read h).0), (read h).1 ∙ step), λ h. print (h.0.1, h.1 ∙ sym step))
  | inr other ↦ rw other (cc, λ h. cc h.0.0)
]

fits_iff : (bits n : ℕ) (o : Option ℕ) → (fits bits o ≡ some n) ↔ ((o ≡ some n) × (n < 2 ^ bits))
fits_iff bits n none = (cc, λ h. cc h.0)
fits_iff bits n (some m) = ground arith

-- `ParseUint` succeeds exactly on a non-empty text of digits of the base whose place value fits
-- into the bits, and its result is that value.
pub parse_uint_iff :
    (base bits : ℕ) (s : Bytes) (n : ℕ)
    → (parse_uint s base bits ≡ some n)
      ↔ ((s ≢ []) × All (λ c. is_digit base c ≡ true) s × (n ≡ place_value base s) × (n < 2 ^ bits))
unfolding parse_uint
parse_uint_iff base bits [] n = (cc, λ h. absurd (h.0 refl))
parse_uint_iff base bits (c ∷ s) n =
    let (read, print) = parse_digits_iff base 0 (c ∷ s) in
    let (small, build) = fits_iff bits n (parse_digits base 0 (c ∷ s)) in
    (
      λ h.
          let found = read (small h).0 in
          ((λ e. cc e), found.0, omega (arith, found.1), (small h).1),
      λ h. build (print (h.1, omega (arith, h.2)), h.3),
    )

abbrev pub IsBoolWord : Bytes → Bool → Type 0
IsBoolWord v true = Any (λ w. v ≡ w) true_words
IsBoolWord v false = Any (λ w. v ≡ w) false_words

any_iff : (v : Bytes) (ws : List Bytes) → (any (eqb v) ws ≡ true) ↔ Any (λ w. v ≡ w) ws
any_iff v [] = ground arith
any_iff v (w ∷ ws) = ground (arith, eqb_iff v w, any_iff v ws)

eq_any : (P : Bytes → Type 0) (v : Bytes) (ws : List Bytes) → All P ws → Any (λ w. v ≡ w) ws → P v
eq_any P v [] h m = absurd m
eq_any P v (w ∷ ws) h (inl e) = rw e h.0
eq_any P v (w ∷ ws) h (inr m) = eq_any P v ws h.1 m

false_words-parse_bool : All (λ w. parse_bool w ≡ some false) false_words
unfolding parse_bool codes
false_words-parse_bool = (refl, (refl, (refl, (refl, (refl, (refl, tt))))))

pub parse_bool_iff : (v : Bytes) (b : Bool) → (parse_bool v ≡ some b) ↔ IsBoolWord v b
unfolding parse_bool
parse_bool_iff v true =
    (λ h. (any_iff v true_words).0 (ground arith), λ m. ground (arith, (any_iff v true_words).1 m))
parse_bool_iff v false = (
  λ h. (any_iff v false_words).0 (ground arith),
  eq_any (λ w. parse_bool w ≡ some false) v false_words false_words-parse_bool,
)
