-- ===== src/Paths/Joined.antt =====
-- Joining names to an absolute path, as for the files of a copied or cleared directory.
use orascout.Base.{
  ◌≡◌, refl, sym, ap, ◌∙◌, subst, ◌≢◌, true, false, List, [], ◌∷◌, append-nil, append_assoc, ◌++◌,
  reverse, All, All-append, All-append_right, Bytes,
}
use mathlib.Core.List.{reverse-cons, reverse_aux}
use orascout.Strings.{split}
use orascout.Paths.{is_abs, walk, elements, slashed, render, join, dir, dotdot}
use orascout.Paths.Elements.{
  IsName, split-append, split-slashed, walk-append, walk-names, names-NoSlash, elements-IsName,
  elements-render, clean_abs,
}
use orascout.Paths.Parents.{last_part}
use orascout.Paths.Inside.{Inside}
use orascout.Paths.Dirs.{front, split-render, elements-dir-render, elements_abs}

reverse-reverse_aux : (xs ys : List Bytes) → reverse (reverse_aux xs ys) ≡ reverse ys ++ xs
reverse-reverse_aux [] ys = sym (append-nil (reverse ys))
reverse-reverse_aux (x ∷ xs) ys =
    reverse-reverse_aux xs (x ∷ ys)
    ∙ ap (λ y. y ++ xs) (reverse-cons x ys)
    ∙ append_assoc (reverse ys) (x ∷ []) xs

module _ (e : Bytes) (es : List Bytes) (names : All IsName (e ∷ es)) where
  split-joined : (s : Bytes) → split (s ++ b'/' ∷ (e ++ slashed es)) b'/' ≡ split s b'/' ++ e ∷ es
  split-joined s =
      split-append s (e ++ slashed es)
      ∙ ap (λ y. split s b'/' ++ y) (split-slashed e es names.0.no_slash (names-NoSlash es names.1))

  elements-joined :
      (s : Bytes)
      → is_abs s ≡ true
      → is_abs (s ++ b'/' ∷ (e ++ slashed es)) ≡ true
      → elements (s ++ b'/' ∷ (e ++ slashed es)) ≡ elements s ++ e ∷ es
  elements-joined s h k =
      elements_abs _ k
      ∙ ap (λ y. reverse (walk true [] y)) (split-joined s)
      ∙ ap reverse (
          walk-append true [] (split s b'/') (e ∷ es)
          ∙ walk-names true (walk true [] (split s b'/')) (e ∷ es) names)
      ∙ reverse-reverse_aux (e ∷ es) (walk true [] (split s b'/'))
      ∙ ap (λ y. y ++ e ∷ es) (sym (elements_abs s h))

  -- Joined names stand behind the elements of the directory.
  pub join-render :
      (s : Bytes)
      → is_abs s ≡ true
      → join s (render false (e ∷ es)) ≡ render true (elements s ++ e ∷ es)
  unfolding join
  join-render [] h = cc
  join-render (c ∷ s) h =
      clean_abs ((c ∷ s) ++ b'/' ∷ (e ++ slashed es)) h
      ∙ ap (render true) (elements-joined (c ∷ s) h h)

pub is_abs-names : (es : List Bytes) → is_abs (render true es) ≡ true
is_abs-names [] = refl
is_abs-names (e ∷ es) = refl

names-ne_dotdot : (es : List Bytes) → All IsName es → All (λ e. e ≢ dotdot) es
names-ne_dotdot [] h = tt
names-ne_dotdot (e ∷ es) h = (h.0.ne_dotdot, names-ne_dotdot es h.1)

-- The last part of a rendered path is not "..".
last-render :
    (e : Bytes) (es : List Bytes)
    → All IsName (e ∷ es)
    → (last_part (render true (e ∷ es))).last ≢ dotdot
last-render e es h =
    let l = last_part (render true (e ∷ es)) in
    let parts : All (λ x. x ≢ dotdot) (l.init ++ l.last ∷ []) =
      subst (All (λ x. x ≢ dotdot)) (sym (split-render e es h) ∙ l.whole)
        ((λ p. cc p), names-ne_dotdot (e ∷ es) h) in
    (All-append_right (λ x. x ≢ dotdot) l.init (l.last ∷ []) parts).0

front-append :
    (xs : List Bytes) (e : Bytes) (es : List Bytes) → front (xs ++ e ∷ es) ≡ xs ++ front (e ∷ es)
front-append [] e es = refl
front-append (x ∷ []) e es = refl
front-append (x ∷ y ∷ xs) e es = ap (◌∷◌ x) (front-append (y ∷ xs) e es)

-- A path below a directory, and its directory, where it is not the directory itself.
pub record IsChild (ds : List Bytes) (p : Bytes) : Type 0 where
  pub absolute : is_abs p ≡ true
  pub inside : Inside ds (elements p)
  pub last_ne_dotdot : (last_part p).last ≢ dotdot
  pub parent : Inside ds (elements (dir p))

render-IsChild :
    (ds : List Bytes) (e : Bytes) (es : List Bytes)
    → All IsName (ds ++ e ∷ es)
    → IsChild ds (render true (ds ++ e ∷ es))
render-IsChild [] e es h = record {
  absolute = refl;
  inside = (e ∷ es, elements-render (e ∷ es) h);
  last_ne_dotdot = last-render e es h;
  parent = (front (e ∷ es), elements-dir-render e es h);
}
render-IsChild (d ∷ ds) e es h = record {
  absolute = refl;
  inside = (e ∷ es, elements-render (d ∷ (ds ++ e ∷ es)) h);
  last_ne_dotdot = last-render d (ds ++ e ∷ es) h;
  parent = (front (e ∷ es), elements-dir-render d (ds ++ e ∷ es) h ∙ front-append (d ∷ ds) e es);
}

-- What is joined to an absolute path by names lies below it.
pub join-IsChild :
    (s e : Bytes) (es : List Bytes)
    → is_abs s ≡ true
    → All IsName (e ∷ es)
    → IsChild (elements s) (join s (render false (e ∷ es)))
join-IsChild s e es h names = rw (join-render e es names s h) (
    render-IsChild (elements s) e es
      (All-append IsName (elements s) (e ∷ es) (elements-IsName s h) names))
