-- ===== src/Paths/Elements.antt =====
-- What `Clean` makes of an absolute path: its elements are names, and cleaning is stable.
use mathlib.Core.List.{reverse-reverse, reverse_aux}
use orascout.Base.{
  ℕ, Bool, true, List, [], ◌∷◌, ◌++◌, ◌≡◌, ◌≢◌, refl, sym, ap, arith, reverse, All, ◌==◌, Bytes,
  eqb_iff, Bool-cases, inl, inr,
}
use orascout.Strings.{split, cons_head}
use orascout.Paths.{dot, dotdot, is_abs, keep, walk, elements, slashed, render, clean}

abbrev pub NoSlash : Bytes → Type 0
NoSlash = All (λ c. c ≢ b'/')

-- A file's or directory's own name.
pub record IsName (e : Bytes) : Type 0 where
  pub ne_nil : e ≢ []
  pub ne_dot : e ≢ dot
  pub ne_dotdot : e ≢ dotdot
  pub no_slash : NoSlash e

All-reverse : {A : Type 0} (P : A → Type 0) (xs : List A) → All P xs → All P (reverse xs)
All-reverse {A} P xs h = All-reverse_aux xs [] h tt
  where
    All-reverse_aux : (xs ys : List A) → All P xs → All P ys → All P (reverse_aux xs ys)
    All-reverse_aux [] ys h k = k
    All-reverse_aux (x ∷ xs) ys h k = All-reverse_aux xs (x ∷ ys) h.1 (h.0, k)

pub split-ne-nil : (s : Bytes) → split s b'/' ≢ []
unfolding split
split-ne-nil [] = ground arith
split-ne-nil (a ∷ s) = ground (arith, split-ne-nil s)

pub keep-name :
    (rooted : Bool) (kept : List Bytes) (e : Bytes) → IsName e → keep rooted kept e ≡ e ∷ kept
keep-name rooted kept [] h = absurd (h.ne_nil refl)
keep-name rooted kept (c ∷ e) h =
    ground (arith, h.ne_dot, h.ne_dotdot, eqb_iff (c ∷ e) dot, eqb_iff (c ∷ e) dotdot)

cons_head-NoSlash :
    (a : ℕ) (es : List Bytes) → a ≢ b'/' → All NoSlash es → All NoSlash (cons_head a es)
cons_head-NoSlash a [] n h = ((n, tt), tt)
cons_head-NoSlash a (e ∷ es) n h = ((n, h.0), h.1)

pub split-NoSlash : (s : Bytes) → All NoSlash (split s b'/')
unfolding split
split-NoSlash [] = (tt, tt)
split-NoSlash (a ∷ s) = elim (Bool-cases (a == b'/')) [
  | inl slash ↦ rw slash (tt, split-NoSlash s)
  | inr other ↦ rw other (cons_head-NoSlash a _ (ground arith) (split-NoSlash s))
]

-- Text before a slash is one element.
pub split-append : (a b : Bytes) → split (a ++ b'/' ∷ b) b'/' ≡ split a b'/' ++ split b b'/'
unfolding split
split-append [] b = refl
split-append (c ∷ a) b = ground (arith, split-append a b, split-ne-nil a)

pub split-slashed :
    (e : Bytes) (es : List Bytes)
    → NoSlash e
    → All NoSlash es
    → split (e ++ slashed es) b'/' ≡ e ∷ es
unfolding split
split-slashed [] [] h k = refl
split-slashed [] (e ∷ es) h k = ap (◌∷◌ []) (split-slashed e es k.0 k.1)
split-slashed (a ∷ e) es h k = ground (arith, h.0, split-slashed e es h.1 k)

keep-IsName :
    (kept : List Bytes) (e : Bytes) → All IsName kept → NoSlash e → All IsName (keep true kept e)
keep-IsName [] e h n = ground (arith, eqb_iff e dot, eqb_iff e dotdot)
keep-IsName (top ∷ kept) e h n = ground (arith, eqb_iff e dot, eqb_iff e dotdot, eqb_iff top dotdot)

walk-IsName :
    (kept es : List Bytes) → All IsName kept → All NoSlash es → All IsName (walk true kept es)
unfolding walk
walk-IsName kept [] h k = h
walk-IsName kept (e ∷ es) h k = walk-IsName (keep true kept e) es (keep-IsName kept e h k.0) k.1

-- The elements of an absolute path are names: neither empty, nor ".", nor "..".
pub elements-IsName : (s : Bytes) → is_abs s ≡ true → All IsName (elements s)
unfolding elements
elements-IsName s h = rw h (All-reverse IsName _ (walk-IsName [] _ tt (split-NoSlash s)))

-- Names are kept as they stand.
pub walk-names :
    (rooted : Bool) (kept es : List Bytes)
    → All IsName es
    → walk rooted kept es ≡ reverse_aux es kept
unfolding walk
walk-names rooted kept [] h = refl
walk-names rooted kept (e ∷ es) h =
    rw (keep-name rooted kept e h.0) (walk-names rooted (e ∷ kept) es h.1)

pub walk-append :
    (rooted : Bool) (kept es fs : List Bytes)
    → walk rooted kept (es ++ fs) ≡ walk rooted (walk rooted kept es) fs
unfolding walk
walk-append rooted kept [] fs = refl
walk-append rooted kept (e ∷ es) fs = walk-append rooted (keep rooted kept e) es fs

pub names-NoSlash : (es : List Bytes) → All IsName es → All NoSlash es
names-NoSlash [] h = tt
names-NoSlash (e ∷ es) h = (h.0.no_slash, names-NoSlash es h.1)

-- A path that is rendered from names has these names as its elements.
pub elements-render : (es : List Bytes) → All IsName es → elements (render true es) ≡ es
unfolding elements
elements-render [] h = refl
elements-render (e ∷ es) h =
    rw (split-slashed e es h.0.no_slash (names-NoSlash es h.1))
      (rw (walk-names true [] (e ∷ es) h) (reverse-reverse (e ∷ es)))

is_abs-render : (es : List Bytes) → is_abs (render true es) ≡ true
is_abs-render [] = refl
is_abs-render (e ∷ es) = refl

pub clean_abs : (s : Bytes) → is_abs s ≡ true → clean s ≡ render true (elements s)
unfolding clean
clean_abs s h = rw h

pub is_abs-clean : (s : Bytes) → is_abs s ≡ true → is_abs (clean s) ≡ true
is_abs-clean s h = rw (clean_abs s h) (is_abs-render (elements s))

-- Cleaning an absolute path keeps its elements.
pub elements-clean : (s : Bytes) → is_abs s ≡ true → elements (clean s) ≡ elements s
elements-clean s h = rw (clean_abs s h) (elements-render _ (elements-IsName s h))

-- Cleaning an absolute path again changes nothing.
pub clean-clean : (s : Bytes) → is_abs s ≡ true → clean (clean s) ≡ clean s
clean-clean s h =
    rw (clean_abs (clean s) (is_abs-clean s h), elements-clean s h) (sym (clean_abs s h))
