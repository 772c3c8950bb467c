-- ===== src/Deploy/Safety/Cleared.antt =====
-- The directory that a deploy clears, against the one that `validateRequest` checks: for a war these
-- are `filepath.Dir(target)` and `path.Dir(path.Clean(target))`.
use orascout.Base.{
  ◌≤◌, ◌≡◌, refl, sym, ap, ◌∙◌, subst, ◌≢◌, ◌⊎◌, inl, inr, true, List, [], ◌∷◌, append-nil, ◌++◌,
  arith, length, All, Any, ok, Bytes, codes,
}
use orascout.Strings.Laws.{Occurs}
use orascout.Paths.{is_abs, clean, elements, dir, render, dotdot, dir_part}
use orascout.Paths.Elements.{IsName, elements-clean, clean_abs, elements-IsName}
use orascout.Paths.Parents.{last_part}
use orascout.Paths.Inside.{Inside}
use orascout.Paths.Dirs.{front, front-concat, elements-dir, elements-dir-render}
use orascout.Deploy.Safety.{
  denied_exact, denied_subtrees, validate_target_path, validate_clear_path,
}
use orascout.Deploy.Safety.Denylist.{IsDirectory}
use orascout.Deploy.Safety.Target.{IsTarget, validate_target_path_iff}
use orascout.Deploy.Safety.Clear.{validate_clear_path_iff}

-- A directory, by its elements, whose entries may be removed.
pub record IsClearable (allowed_roots : List Bytes) (es : List Bytes) : Type 0 where
  pub not_exact : All (λ d. ¬ (es ≡ elements d)) denied_exact
  pub not_below : All (λ d. ¬ Inside (elements d) es) denied_subtrees
  pub allowed : (allowed_roots ≡ []) ⊎ Any (λ r. Inside (elements r) es) allowed_roots
  pub deep : 2 ≤ length es

-- An accepted target has no last part "..".
pub last_ne_dotdot : (s : Bytes) → ¬ Occurs dotdot s → (last_part s).last ≢ dotdot
last_ne_dotdot s h e =
    let l = last_part s in
    h (dir_part s, [], l.text ∙ ap (λ x. dir_part s ++ x) (e ∙ sym (append-nil dotdot)))

length-front : (es : List Bytes) → length (front es) ≤ length es
length-front [] = omega arith
length-front (e ∷ []) = omega arith
length-front (e ∷ f ∷ es) = omega (arith, length-front (f ∷ es))

elements-dir-clean_names :
    (es : List Bytes) → All IsName es → es ≢ [] → elements (dir (render true es)) ≡ front es
elements-dir-clean_names [] h n = absurd (n refl)
elements-dir-clean_names (e ∷ es) h n = elements-dir-render e es h

-- The directory of the cleaned path lacks exactly its last element.
elements-dir-clean :
    (s : Bytes) → is_abs s ≡ true → elements s ≢ [] → elements (dir (clean s)) ≡ front (elements s)
elements-dir-clean s h n =
    ap (λ x. elements (dir x)) (clean_abs s h)
    ∙ elements-dir-clean_names (elements s) (elements-IsName s h) n

-- The root is one of the protected paths.
not_exact-ne_root : (es : List Bytes) → All (λ d. ¬ (es ≡ elements d)) denied_exact → es ≢ []
unfolding denied_exact elements codes
not_exact-ne_root es h = h.0

module _ (roots : List Bytes) where
  IsTarget-IsClearable :
      (s : Bytes) (es : List Bytes)
      → IsTarget s roots
      → elements s ≡ es
      → 2 ≤ length es
      → IsClearable roots es
  IsTarget-IsClearable s es t e l = subst (IsClearable roots) e (record {
    not_exact = t.not_exact;
    not_below = t.not_below;
    allowed = t.allowed;
    deep = subst (λ x. 2 ≤ length x) (sym e) l;
  })

  module _ (h : All IsDirectory roots) where
    -- A war's directory is either the checked one or the target itself.
    pub war_dir-IsClearable :
        (s : Bytes)
        → validate_target_path s roots ≡ ok tt
        → validate_clear_path (dir (clean s)) roots ≡ ok tt
        → IsClearable roots (elements (dir s))
    war_dir-IsClearable s v c =
        let t = (validate_target_path_iff s roots h).0 v in
        let (p, deep) = (validate_clear_path_iff (dir (clean s)) roots h).0 c in
        let parent = elements-dir-clean s t.absolute (not_exact-ne_root (elements s) t.not_exact) in
        elim (elements-dir s t.absolute (last_ne_dotdot s t.no_dotdot)) [
          | inl same ↦ IsTarget-IsClearable s (elements (dir s)) t same (
              subst (λ y. 2 ≤ length y) same
                (omega (arith, subst (λ y. 2 ≤ length y) parent deep, length-front (elements s))))
          | inr (x, name, more) ↦
              let again : elements (dir (clean s)) ≡ elements (dir s) =
                parent ∙ ap front more ∙ front-concat (elements (dir s)) x in
              IsTarget-IsClearable (dir (clean s)) (elements (dir s)) p again
                (subst (λ y. 2 ≤ length y) again deep)
        ]

    pub static_dir-IsClearable :
        (s : Bytes)
        → validate_target_path s roots ≡ ok tt
        → validate_clear_path (clean s) roots ≡ ok tt
        → IsClearable roots (elements s)
    static_dir-IsClearable s v c =
        let t = (validate_target_path_iff s roots h).0 v in
        let (p, deep) = (validate_clear_path_iff (clean s) roots h).0 c in
        let same = elements-clean s t.absolute in
        IsTarget-IsClearable (clean s) (elements s) p same (subst (λ y. 2 ≤ length y) same deep)
