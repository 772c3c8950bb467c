-- ===== src/Paths/Dirs.antt =====
-- The elements of the directory of a path, and of its neighbours.
use orascout.Base.{
  ◌≡◌, refl, sym, ap, ◌∙◌, ◌≢◌, ◌⊎◌, inl, inr, Bool, true, List, [], ◌∷◌, ◌++◌, reverse, ==_iff,
  Bool-cases, All, Bytes, eqb, eqb_iff,
}
use mathlib.Core.List.{reverse-reverse, reverse-cons}
use orascout.Strings.{split}
use orascout.Paths.{is_abs, walk, keep, elements, slashed, render, dir_part, dir, dot, dotdot}
use orascout.Paths.Elements.{
  NoSlash, IsName, split-slashed, walk-append, walk-names, names-NoSlash, elements-clean,
  is_abs-clean, keep-name,
}
use orascout.Paths.Parents.{last_part, split_slash, dir_part-slash}

pub is_abs-dir_part : (s : Bytes) → is_abs s ≡ true → is_abs (dir_part s) ≡ true
is_abs-dir_part [] h = cc
is_abs-dir_part (c ∷ s) h = rw ((==_iff c b'/').0 h) (rw dir_part-slash refl)

pub is_abs-dir : (s : Bytes) → is_abs s ≡ true → is_abs (dir s) ≡ true
unfolding dir
is_abs-dir s h = is_abs-clean (dir_part s) (is_abs-dir_part s h)

pub elements_abs :
    (s : Bytes) → is_abs s ≡ true → elements s ≡ reverse (walk true [] (split s b'/'))
unfolding elements
elements_abs s h = rw h

elements-dir_part : (s : Bytes) → is_abs s ≡ true → elements (dir s) ≡ elements (dir_part s)
unfolding dir
elements-dir_part s h = elements-clean (dir_part s) (is_abs-dir_part s h)

pub walk_one :
    (rooted : Bool) (kept es : List Bytes) (e : Bytes)
    → walk rooted kept (es ++ e ∷ []) ≡ keep rooted (walk rooted kept es) e
unfolding walk
walk_one rooted kept es e = walk-append rooted kept es (e ∷ [])

-- The elements that are kept before the last part.
abbrev pub before : (s : Bytes) → List Bytes
before s = walk true [] (last_part s).init

pub elements-dir-before : (s : Bytes) → is_abs s ≡ true → elements (dir s) ≡ reverse (before s)
elements-dir-before s h =
    elements-dir_part s h
    ∙ elements_abs (dir_part s) (is_abs-dir_part s h)
    ∙ ap (λ x. reverse (walk true [] x)) (last_part s).parent
    ∙ ap reverse (walk_one true [] (last_part s).init [])

elements-before :
    (s : Bytes) → is_abs s ≡ true → elements s ≡ reverse (keep true (before s) (last_part s).last)
elements-before s h =
    elements_abs s h
    ∙ ap (λ x. reverse (walk true [] x)) (last_part s).whole
    ∙ ap reverse (walk_one true [] (last_part s).init (last_part s).last)

-- What keeping one more element does, unless it is "..".
keep-cases :
    (kept : List Bytes) (e : Bytes)
    → e ≢ dotdot
    → NoSlash e
    → (keep true kept e ≡ kept) ⊎ (IsName e × (keep true kept e ≡ e ∷ kept))
keep-cases kept [] n k = inl refl
keep-cases kept (c ∷ e) n k = elim (Bool-cases (eqb (c ∷ e) dot)) [
  | inl same ↦ inl (rw same)
  | inr other ↦
      let name : IsName (c ∷ e) = record {
        ne_nil = λ p. cc p;
        ne_dot = λ p. cc (other, (eqb_iff (c ∷ e) dot).1 p);
        ne_dotdot = n;
        no_slash = k;
      } in
      inr (name, keep-name true kept (c ∷ e) name)
]

-- The elements of an absolute path are those of its directory, or these and one more name.
pub elements-dir :
    (s : Bytes)
    → is_abs s ≡ true
    → (last_part s).last ≢ dotdot
    → (elements s ≡ elements (dir s))
      ⊎ ((e : Bytes) × IsName e × (elements s ≡ elements (dir s) ++ e ∷ []))
elements-dir s h n = elim (keep-cases (before s) (last_part s).last n (last_part s).no_slash) [
  | inl same ↦ inl (elements-before s h ∙ ap reverse same ∙ sym (elements-dir-before s h))
  | inr (name, more) ↦ inr (
    (last_part s).last,
    name,
    elements-before s h
        ∙ ap reverse more
        ∙ reverse-cons (last_part s).last (before s)
        ∙ ap (λ x. x ++ (last_part s).last ∷ []) (sym (elements-dir-before s h)),
  )
]

abbrev pub front : List Bytes → List Bytes
front [] = []
front (e ∷ []) = []
front (e ∷ f ∷ es) = e ∷ front (f ∷ es)

pub front-concat : (es : List Bytes) (e : Bytes) → front (es ++ e ∷ []) ≡ es
front-concat [] e = refl
front-concat (x ∷ []) e = refl
front-concat (x ∷ y ∷ es) e = ap (◌∷◌ x) (front-concat (y ∷ es) e)

pub split-render :
    (e : Bytes) (es : List Bytes)
    → All IsName (e ∷ es)
    → split (render true (e ∷ es)) b'/' ≡ [] ∷ e ∷ es
split-render e es h =
    split_slash (e ++ slashed es)
    ∙ ap (◌∷◌ []) (split-slashed e es h.0.no_slash (names-NoSlash es h.1))

front-IsName : (es : List Bytes) → All IsName es → All IsName (front es)
front-IsName [] h = tt
front-IsName (e ∷ []) h = tt
front-IsName (e ∷ f ∷ es) h = (h.0, front-IsName (f ∷ es) h.1)

walk_front : (es : List Bytes) → All IsName es → reverse (walk true [] ([] ∷ es)) ≡ es
unfolding walk
walk_front es h = ap reverse (walk-names true [] es h) ∙ reverse-reverse es

-- The directory of a rendered path has all its elements but the last.
pub elements-dir-render :
    (e : Bytes) (es : List Bytes)
    → All IsName (e ∷ es)
    → elements (dir (render true (e ∷ es))) ≡ front (e ∷ es)
elements-dir-render e es h =
    let l = last_part (render true (e ∷ es)) in
    let inits : l.init ≡ [] ∷ front (e ∷ es) =
      sym (front-concat l.init l.last) ∙ ap front (sym l.whole ∙ split-render e es h) in
    elements-dir-before (render true (e ∷ es)) refl
    ∙ ap (λ x. reverse (walk true [] x)) inits
    ∙ walk_front (front (e ∷ es)) (front-IsName (e ∷ es) h)
