-- ===== src/Strconv/Numbers.antt =====
-- Printing a number and reading it back.
use orascout.Base.{
  All, is_empty, ℕ, zero, suc, ◌+◌, ◌-◌, ◌*◌, ◌/◌, ◌%◌, ◌^◌, ◌≤◌, ◌<◌, ◌≡◌, refl, sym, ap, ◌∙◌, inl,
  inr, true, false, some, [], ◌∷◌, arith, ltb, ◌==◌, lt→ltb, Bool-cases, Bytes,
}
use orascout.Base.Int.{pos}
use orascout.Strings.{trim_space}
use orascout.Strings.Digits.{IsDigit, trim_space-digits}
use orascout.Strconv.{atoi, print_int, print_digits, parse_digits, is_digit}

parse_digit :
    (acc d : ℕ) (s : Bytes)
    → d < 10
    → parse_digits 10 acc ((b'0' + d) ∷ s) ≡ parse_digits 10 (acc * 10 + d) s
unfolding parse_digits
parse_digit acc d s h =
    let digit : is_digit 10 (b'0' + d) ≡ true = ground arith in
    let value : acc * 10 + (b'0' + d - b'0') ≡ acc * 10 + d = omega arith in rw (digit, value) refl

parse_digits-print_digits :
    (fuel n : ℕ) (s : Bytes)
    → n < fuel
    → parse_digits 10 0 (print_digits fuel n s) ≡ parse_digits 10 n s
unfolding parse_digits print_digits
parse_digits-print_digits zero n s h = elim h [ ]
parse_digits-print_digits (suc fuel) n s h = elim (Bool-cases (ltb n 10)) [
  | inl small ↦
      rw small
        (parse_digit 0 n s (ground arith) ∙ ap (λ (k : ℕ). parse_digits 10 k s) (omega arith))
  | inr big ↦ rw big (
      parse_digits-print_digits fuel (n / 10) ((b'0' + n % 10) ∷ s) (ground arith)
      ∙ (parse_digit (n / 10) (n % 10) s (omega arith)
          ∙ ap (λ (k : ℕ). parse_digits 10 k s) (omega arith)))
]

-- The first byte of a printed number is a digit.
print_digits-digit :
    (fuel n : ℕ) (s : Bytes)
    → n < fuel
    → (c : ℕ) × (t : Bytes) × (print_digits fuel n s ≡ c ∷ t) × (b'0' ≤ c) × (c < b'0' + 10)
unfolding print_digits
print_digits-digit zero n s h = elim h [ ]
print_digits-digit (suc fuel) n s h = elim (Bool-cases (ltb n 10)) [
  | inl small ↦ (b'0' + n, s, ground arith, omega arith, ground arith)
  | inr big ↦ rw big (print_digits-digit fuel (n / 10) ((b'0' + n % 10) ∷ s) (ground arith))
]

parse_digits-print_int : (n : ℕ) → parse_digits 10 0 (print_int n) ≡ some n
unfolding print_int
parse_digits-print_int n =
    parse_digits-print_digits (suc n) n [] (omega arith) ∙ unfold parse_digits in refl

atoi_digits :
    (c : ℕ) (t : Bytes) (n : ℕ)
    → b'0' ≤ c
    → parse_digits 10 0 (c ∷ t) ≡ some n
    → n < 2 ^ 63
    → atoi (c ∷ t) ≡ some (pos n)
unfolding atoi
atoi_digits c t n low e h =
    let minus : (c == b'-') ≡ false = ground arith in
    let plus : (c == b'+') ≡ false = ground arith in rw (minus, plus, e, lt→ltb n (2 ^ 63) h) refl

-- A number that an `int` can hold is read back from its digits.
pub atoi-print_int : (n : ℕ) → n < 2 ^ 63 → atoi (print_int n) ≡ some (pos n)
unfolding print_int
atoi-print_int n h =
    let (c, t, e, low, high) = print_digits-digit (suc n) n [] (omega arith) in
    let read : parse_digits 10 0 (c ∷ t) ≡ some n =
      ap (parse_digits 10 0) (sym e) ∙ parse_digits-print_int n in
    ap atoi e ∙ atoi_digits c t n low read h

print_digits-All :
    (fuel n : ℕ) (s : Bytes) → n < fuel → All IsDigit s → All IsDigit (print_digits fuel n s)
unfolding print_digits
print_digits-All zero n s h d = d
print_digits-All (suc fuel) n s h d = elim (Bool-cases (ltb n 10)) [
  | inl small ↦ rw small ((omega arith, ground arith), d)
  | inr big ↦ rw big (
      print_digits-All fuel (n / 10) ((b'0' + n % 10) ∷ s) (ground arith)
        ((omega arith, omega arith), d))
]

-- A printed number has nothing to trim.
pub trim_space-print_int : (n : ℕ) → trim_space (print_int n) ≡ print_int n
unfolding print_int
trim_space-print_int n =
    trim_space-digits (print_int n) (print_digits-All (suc n) n [] (omega arith) tt)

pub is_empty-print_int : (n : ℕ) → is_empty (print_int n) ≡ false
unfolding print_int
is_empty-print_int n =
    let (c, t, e, low, high) = print_digits-digit (suc n) n [] (omega arith) in ap is_empty e
