-- ===== src/Deploy/Safety/Artifact.antt =====
-- `securePathJoin` against a description of the paths that it gives: by their elements, those inside
-- the directory.
use orascout.Base.{
  ◌≡◌, refl, sym, subst, ◌≢◌, ◌↔◌, true, false, [], ◌∷◌, ◌++◌, arith, ok, Bytes, is_empty,
}
use orascout.Strings.{trim_space}
use orascout.Paths.{is_abs, clean, elements, join}
use orascout.Paths.Elements.{is_abs-clean, elements-clean}
use orascout.Paths.Inside.{Inside, under, under_iff}
use orascout.Deploy.Safety.{secure_path_join}
use orascout.Deploy.Safety.Target.{is_empty_iff}

-- The checks one by one, as the source makes them.
record Steps (base rel p : Bytes) : Type 0 where
  not_blank : is_empty (trim_space rel) ≡ false
  relative : is_abs rel ≡ false
  inside : under (join (clean base) rel) (clean base) ≡ true
  joined : join (clean base) rel ≡ p

secure_path_join-Steps : (base rel p : Bytes) → secure_path_join base rel ≡ ok p → Steps base rel p
unfolding secure_path_join
secure_path_join-Steps base rel p h = ground arith

Steps-secure_path_join : (base rel p : Bytes) → Steps base rel p → secure_path_join base rel ≡ ok p
unfolding secure_path_join
Steps-secure_path_join base rel p s = ground arith

-- The joined text of the source, before it is cleaned.
abbrev joined_text : Bytes → Bytes → Bytes
joined_text base rel = base ++ b'/' ∷ rel

join_abs :
    (base rel : Bytes)
    → is_abs base ≡ true
    → (join base rel ≡ clean (joined_text base rel)) × (is_abs (joined_text base rel) ≡ true)
unfolding join
join_abs [] rel h = cc
join_abs (c ∷ base) rel h = (refl, h)

module _ (base : Bytes) (absolute : is_abs base ≡ true) (not_root : elements base ≢ []) where
  under-join_iff :
      (rel : Bytes)
      → (under (join (clean base) rel) (clean base) ≡ true)
        ↔ Inside (elements base) (elements (join (clean base) rel))
  under-join_iff rel =
      let (e, a) = join_abs (clean base) rel (is_abs-clean base absolute) in
      rw (e, elements-clean (joined_text (clean base) rel) a)
        (under_iff (joined_text (clean base) rel) base a absolute not_root)

  -- Below an absolute directory other than the root, a path of an artifact is accepted exactly if it
  -- is not blank, is relative, and leads by its elements to the directory or into it. The result is
  -- that path, cleaned.
  pub secure_path_join_iff :
      (rel p : Bytes)
      → (secure_path_join base rel ≡ ok p) ↔ (
          (trim_space rel ≢ [])
          × (is_abs rel ≡ false)
          × (join (clean base) rel ≡ p)
          × Inside (elements base) (elements p))
  secure_path_join_iff rel p = (
    λ h.
        let s = secure_path_join-Steps base rel p h in
        (
          (is_empty_iff (trim_space rel)).0 s.not_blank,
          s.relative,
          s.joined,
          subst (λ x. Inside (elements base) (elements x)) s.joined
              ((under-join_iff rel).0 s.inside),
        ),
    λ d. Steps-secure_path_join base rel p (record {
      not_blank = (is_empty_iff (trim_space rel)).1 d.0;
      relative = d.1;
      inside =
          (under-join_iff rel).1 (subst (λ x. Inside (elements base) (elements x)) (sym d.2) d.3);
      joined = d.2;
    }),
  )
