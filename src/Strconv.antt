-- ===== src/Strconv.antt =====
-- Go's package strconv, as far as the program calls it. `none` stands for an error.
pub mod Laws
pub mod Numbers
use orascout.Base.Int.{ℤ, pos, negsuc}
use orascout.Base.{
  zero, suc, ◌/◌, ◌%◌, ◌==◌, ℕ, ◌+◌, ◌-◌, ◌*◌, ◌^◌, Bool, true, false, ◌&&◌, ◌||◌, List, [], ◌∷◌,
  Option, none, some, any, leb, ltb, if◌then◌else◌, Bytes, codes, eqb, is_empty,
}

abbrev pub true_words : List Bytes
unfolding codes
true_words = codes "1" ∷ codes "t" ∷ codes "T" ∷ codes "true" ∷ codes "TRUE" ∷ codes "True" ∷ []

abbrev pub false_words : List Bytes
unfolding codes
false_words = codes "0" ∷ codes "f" ∷ codes "F" ∷ codes "false" ∷ codes "FALSE" ∷ codes "False" ∷ []

-- `strconv.ParseBool(s)`
unfoldable pub parse_bool : Bytes → Option Bool
parse_bool s =
    if any (eqb s) true_words
    then some true
    else if any (eqb s) false_words
    then some false
    else none

-- A digit of a base up to 10.
abbrev pub is_digit : ℕ → ℕ → Bool
is_digit base c = leb b'0' c && ltb c (b'0' + base)

unfoldable pub parse_digits : ℕ → ℕ → Bytes → Option ℕ
parse_digits base acc [] = some acc
parse_digits base acc (c ∷ s) =
    let rest = parse_digits base (acc * base + (c - b'0')) s in
    if is_digit base c then rest else none

abbrev fits : ℕ → Option ℕ → Option ℕ
fits bits none = none
fits bits (some n) = if ltb n (2 ^ bits) then some n else none

-- `strconv.ParseUint(s, base, bits)` for a base from 2 to 10
unfoldable pub parse_uint : Bytes → ℕ → ℕ → Option ℕ
unfolding parse_digits
parse_uint s base bits = if is_empty s then none else fits bits (parse_digits base 0 s)

-- Of the values of a 64-bit `int`.
abbrev pub int_of : Bool → Option ℕ → Option ℤ
int_of negative none = none
int_of false (some n) = if ltb n (2 ^ 63) then some (pos n) else none
int_of true (some zero) = some (pos 0)
int_of true (some (suc n)) = if ltb n (2 ^ 63) then some (negsuc n) else none

abbrev pub signed : Bool → Bytes → Option ℤ
signed negative s = if is_empty s then none else int_of negative (parse_digits 10 0 s)

-- `strconv.Atoi(s)`
unfoldable pub atoi : Bytes → Option ℤ
unfolding parse_digits
atoi [] = none
atoi (c ∷ s) =
    if c == b'-' then signed true s else if c == b'+' then signed false s else signed false (c ∷ s)

-- The decimal digits of a number, put before a text. The number is below the fuel.
unfoldable pub print_digits : ℕ → ℕ → Bytes → Bytes
print_digits zero n s = s
print_digits (suc fuel) n s =
    let rest = print_digits fuel (n / 10) ((b'0' + n % 10) ∷ s) in
    if ltb n 10 then (b'0' + n) ∷ s else rest

-- The verb `%d` of package fmt, for a number that is not negative.
unfoldable pub print_int : ℕ → Bytes
unfolding print_digits
print_int n = print_digits (suc n) n []
