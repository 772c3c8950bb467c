-- ===== src/Paths/Extend.antt =====
-- Putting more text behind the last slash of a path: the temporary file beside a target.
use orascout.Base.{
  ℕ, ◌<◌, ◌≡◌, refl, sym, ap, ◌∙◌, ◌≢◌, inl, inr, true, List, [], ◌∷◌, append-nil, append_assoc,
  ◌++◌, reverse, arith, ◌==◌, Bool-cases, length, length-append, All-append, Bytes,
}
use mathlib.Core.List.{reverse-cons}
use orascout.Strings.{split, cons_head}
use orascout.Paths.{dot, is_abs, walk, elements, dir_part, dir, dotdot}
use orascout.Paths.Elements.{NoSlash, IsName, split-ne-nil, split-slashed, keep-name}
use orascout.Paths.Parents.{last_part}
use orascout.Paths.Inside.{Inside}
use orascout.Paths.Dirs.{
  is_abs-dir_part, before, walk_one, elements_abs, elements-dir-before, elements-dir,
}

-- More text for the last element.
abbrev extend : List Bytes → Bytes → List Bytes
extend [] x = x ∷ []
extend (e ∷ []) x = (e ++ x) ∷ []
extend (e ∷ f ∷ es) x = e ∷ extend (f ∷ es) x

extend-cons_head :
    (a : ℕ) (es : List Bytes) (x : Bytes)
    → es ≢ []
    → extend (cons_head a es) x ≡ cons_head a (extend es x)
extend-cons_head a [] x h = absurd (h refl)
extend-cons_head a (e ∷ []) x h = refl
extend-cons_head a (e ∷ f ∷ es) x h = refl

extend-cons : (es : List Bytes) (x : Bytes) → es ≢ [] → extend ([] ∷ es) x ≡ [] ∷ extend es x
extend-cons [] x h = absurd (h refl)
extend-cons (e ∷ es) x h = refl

extend-concat : (es : List Bytes) (x : Bytes) → extend (es ++ [] ∷ []) x ≡ es ++ x ∷ []
extend-concat [] x = refl
extend-concat (e ∷ []) x = refl
extend-concat (e ∷ f ∷ es) x = ap (◌∷◌ e) (extend-concat (f ∷ es) x)

split_one : (x : Bytes) → NoSlash x → split x b'/' ≡ x ∷ []
split_one x h = rw append-nil at (split-slashed x [] h tt)

split-extend : (a x : Bytes) → NoSlash x → split (a ++ x) b'/' ≡ extend (split a b'/') x
unfolding split
split-extend [] x h = split_one x h
split-extend (c ∷ a) x h = elim (Bool-cases (c == b'/')) [
  | inl slash ↦ rw slash (ap (◌∷◌ []) (split-extend a x h) ∙ sym (extend-cons _ x (split-ne-nil a)))
  | inr other ↦
      rw other
        (ap (cons_head c) (split-extend a x h) ∙ sym (extend-cons_head c _ x (split-ne-nil a)))
]

is_abs-append : (s x : Bytes) → is_abs s ≡ true → is_abs (s ++ x) ≡ true
is_abs-append [] x h = cc
is_abs-append (c ∷ s) x h = h

split-beside :
    (s x : Bytes) → NoSlash x → split (dir_part s ++ x) b'/' ≡ (last_part s).init ++ x ∷ []
split-beside s x h =
    split-extend (dir_part s) x h
    ∙ ap (λ y. extend y x) (last_part s).parent
    ∙ extend-concat (last_part s).init x

-- A name in place of the last part of a path is a name in its directory.
elements-beside :
    (s x : Bytes)
    → is_abs s ≡ true
    → IsName x
    → elements (dir_part s ++ x) ≡ elements (dir s) ++ x ∷ []
elements-beside s x h n =
    elements_abs (dir_part s ++ x) (is_abs-append (dir_part s) x (is_abs-dir_part s h))
    ∙ ap (λ y. reverse (walk true [] y)) (split-beside s x n.no_slash)
    ∙ ap reverse (walk_one true [] (last_part s).init x ∙ keep-name true (before s) x n)
    ∙ reverse-cons x (before s)
    ∙ ap (λ y. y ++ x ∷ []) (sym (elements-dir-before s h))

longer : (e y t : Bytes) → length t < length y → e ++ y ≢ t
longer e y t h p = omega (arith, h, ap length p, length-append e y)

-- A text of more than two bytes behind a name.
suffixed-IsName : (e x : Bytes) → 2 < length x → NoSlash e → NoSlash x → IsName (e ++ x)
suffixed-IsName e x l h k = record {
  ne_nil = longer e x [] (omega (arith, l));
  ne_dot = longer e x dot (omega (arith, l));
  ne_dotdot = longer e x dotdot l;
  no_slash = All-append (λ c. c ≢ b'/') e x h k;
}

-- An absolute path in the directory with these elements, or that directory.
pub record IsBelow (ds : List Bytes) (p : Bytes) : Type 0 where
  pub absolute : is_abs p ≡ true
  pub inside : Inside ds (elements p)

-- Whatever lies below a directory that lies below another.
pub Inside-trans : (ds es fs : List Bytes) → Inside ds es → Inside es fs → Inside ds fs
Inside-trans ds es fs (r, h) (q, k) = (r ++ q, k ∙ ap (λ x. x ++ q) h ∙ append_assoc ds r q)

-- A path lies in its directory.
pub dir-IsBelow :
    (ds : List Bytes) (s : Bytes)
    → is_abs s ≡ true
    → (last_part s).last ≢ dotdot
    → Inside ds (elements (dir s))
    → IsBelow ds s
dir-IsBelow ds s h n (r, e) = record {
  absolute = h;
  inside = elim (elements-dir s h n) [
    | inl same ↦ (r, same ∙ e)
    | inr (x, name, more) ↦
        (r ++ x ∷ [], more ∙ ap (λ y. y ++ x ∷ []) e ∙ append_assoc ds r (x ∷ []))
  ];
}

-- The file beside it whose path is a suffix longer does so too.
pub suffixed-IsBelow :
    (ds : List Bytes) (s x : Bytes)
    → is_abs s ≡ true
    → 2 < length x
    → NoSlash x
    → Inside ds (elements (dir s))
    → IsBelow ds (s ++ x)
suffixed-IsBelow ds s x h long k (r, e) =
    let l = last_part s in
    let name = suffixed-IsName l.last x long l.no_slash k in
    record {
      absolute = is_abs-append s x h;
      inside = (
        r ++ (l.last ++ x) ∷ [],
        ap elements (ap (λ y. y ++ x) l.text ∙ append_assoc (dir_part s) l.last x)
            ∙ elements-beside s (l.last ++ x) h name
            ∙ ap (λ y. y ++ (l.last ++ x) ∷ []) e
            ∙ append_assoc ds r ((l.last ++ x) ∷ []),
      );
    }
