-- ===== src/Paths/Depth.antt =====
-- The number of elements of a path, as the source counts it: by trimming the slashes off the
-- cleaned path, and splitting the rest.
use orascout.Base.{
  ℕ, ◌≤◌, ◌≡◌, refl, ap, ◌∙◌, ◌≢◌, ◌↔◌, true, List, [], ◌∷◌, append-nil, ◌++◌, reverse, arith,
  length, All, Bytes,
}
use mathlib.Core.List.{reverse-append, reverse-reverse}
use orascout.Strings.{trim_byte, trim_left_byte, split}
use orascout.Paths.{slashed, render}
use orascout.Paths.Elements.{NoSlash, IsName, split-slashed, names-NoSlash}

-- The last byte is no slash.
record EndsInName (s : Bytes) : Type 0 where
  front : Bytes
  last : ℕ
  splits : s ≡ front ++ last ∷ []
  ne_slash : last ≢ b'/'

EndsInName-cons : (a : ℕ) (s : Bytes) → EndsInName s → EndsInName (a ∷ s)
EndsInName-cons a s h = record {
  front = a ∷ h.front;
  last = h.last;
  splits = ap (◌∷◌ a) h.splits;
  ne_slash = h.ne_slash;
}

EndsInName-append : (a s : Bytes) → EndsInName s → EndsInName (a ++ s)
EndsInName-append [] s h = h
EndsInName-append (c ∷ a) s h = EndsInName-cons c (a ++ s) (EndsInName-append a s h)

NoSlash-EndsInName : (e : Bytes) → e ≢ [] → NoSlash e → EndsInName e
NoSlash-EndsInName [] n h = absurd (n refl)
NoSlash-EndsInName (c ∷ []) n h = record { front = []; last = c; splits = refl; ne_slash = h.0 }
NoSlash-EndsInName (c ∷ d ∷ e) n h =
    EndsInName-cons c (d ∷ e) (NoSlash-EndsInName (d ∷ e) (λ p. cc p) h.1)

names-EndsInName :
    (e : Bytes) (es : List Bytes) → All IsName (e ∷ es) → EndsInName (e ++ slashed es)
names-EndsInName e [] h = rw append-nil (NoSlash-EndsInName e h.0.ne_nil h.0.no_slash)
names-EndsInName e (f ∷ fs) h =
    EndsInName-append e _ (EndsInName-cons b'/' (f ++ slashed fs) (names-EndsInName f fs h.1))

trim_left_byte_ne : (c : ℕ) (s : Bytes) → c ≢ b'/' → trim_left_byte b'/' (c ∷ s) ≡ c ∷ s
unfolding trim_left_byte
trim_left_byte_ne c s n = ground arith

trim_last :
    (front : Bytes) (last : ℕ)
    → last ≢ b'/'
    → trim_left_byte b'/' (reverse (front ++ last ∷ [])) ≡ reverse (front ++ last ∷ [])
trim_last front last n =
    rw (reverse-append front (last ∷ [])) (trim_left_byte_ne last (reverse front) n)

trim_end : (s : Bytes) → EndsInName s → reverse (trim_left_byte b'/' (reverse s)) ≡ s
trim_end s h =
    rw h.splits
      (ap reverse (trim_last h.front h.last h.ne_slash) ∙ reverse-reverse (h.front ++ h.last ∷ []))

trim_slashed :
    (e : Bytes) (es : List Bytes)
    → All IsName (e ∷ es)
    → trim_byte (slashed (e ∷ es)) b'/' ≡ e ++ slashed es
unfolding trim_byte
trim_slashed [] es h = absurd (h.0.ne_nil refl)
trim_slashed (c ∷ e) es h =
    rw (trim_left_byte_ne c (e ++ slashed es) h.0.no_slash.0)
      (trim_end ((c ∷ e) ++ slashed es) (names-EndsInName (c ∷ e) es h))

root_parts : length (split (trim_byte (b'/' ∷ []) b'/') b'/') ≡ 1
unfolding trim_byte split
root_parts = refl

pub parts-render :
    (es : List Bytes)
    → All IsName es
    → 2 ≤ length (split (trim_byte (render true es) b'/') b'/') ↔ (2 ≤ length es)
parts-render [] h = rw root_parts (omega arith)
parts-render (e ∷ es) h =
    rw (trim_slashed e es h, split-slashed e es h.0.no_slash (names-NoSlash es h.1))
      (λ p. p, λ p. p)
