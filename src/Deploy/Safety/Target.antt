-- ===== src/Deploy/Safety/Target.antt =====
-- `validateTargetPath` against a description of the paths that it accepts.
use orascout.Base.{
  ◌∙◌, any-false_iff, Bool, sym, ◌≡◌, refl, ◌≢◌, ◌↔◌, ◌⊎◌, inl, true, false, List, [], ◌∷◌, arith,
  All, Any, any, any_iff, ok, Bytes, eqb, is_empty,
}
use orascout.Strings.{has_prefix, contains, trim_space}
use orascout.Strings.Laws.{contains_iff, Occurs}
use orascout.Paths.{is_abs, clean, elements, dotdot}
use orascout.Paths.Inside.{Inside, under}
use orascout.Deploy.Safety.{denied_exact, denied_subtrees, validate_target_path, allowed_by}
use orascout.Deploy.Safety.Denylist.{
  denied_exact-IsCleanAbs, eqb-clean_iff, denied_subtrees-IsDirectory, IsCleanAbs, IsDirectory,
  under-clean_iff,
}

-- A path that an artifact may be deployed to, by the elements of the cleaned path.
pub record IsTarget (raw : Bytes) (allowed_roots : List Bytes) : Type 0 where
  pub not_blank : trim_space raw ≢ []
  pub no_dotdot : ¬ Occurs dotdot raw
  pub absolute : is_abs raw ≡ true
  pub not_exact : All (λ d. ¬ (elements raw ≡ elements d)) denied_exact
  pub not_below : All (λ d. ¬ Inside (elements d) (elements raw)) denied_subtrees
  pub allowed : (allowed_roots ≡ []) ⊎ Any (λ r. Inside (elements r) (elements raw)) allowed_roots

pub has_prefix-is_abs : (raw : Bytes) → has_prefix raw (b'/' ∷ []) ≡ is_abs raw
unfolding has_prefix
has_prefix-is_abs [] = refl
has_prefix-is_abs (c ∷ raw) = ground arith

pub is_empty_iff : (s : Bytes) → (is_empty s ≡ false) ↔ (s ≢ [])
is_empty_iff [] = (cc, λ h. absurd (h refl))
is_empty_iff (c ∷ s) = ((λ _ e. cc e), λ _. refl)

module _ (raw : Bytes) (absolute : is_abs raw ≡ true) where
  allowed_by_iff :
      (roots : List Bytes)
      → All IsDirectory roots
      → (allowed_by roots (clean raw) ≡ ok tt)
        ↔ ((roots ≡ []) ⊎ Any (λ r. Inside (elements r) (elements raw)) roots)
  allowed_by_iff [] h = ((λ _. inl refl), λ _. refl)
  allowed_by_iff (r ∷ roots) h =
      let listed =
        any_iff (under (clean raw)) (λ r. Inside (elements r) (elements raw)) IsDirectory
          (under-clean_iff raw absolute) (r ∷ roots) h in
      ground (arith, listed)

  exact_iff :
      (any (eqb (clean raw)) denied_exact ≡ false)
      ↔ All (λ d. ¬ (elements raw ≡ elements d)) denied_exact
  exact_iff =
      any-false_iff (eqb (clean raw)) (λ d. elements raw ≡ elements d) IsCleanAbs
        (eqb-clean_iff raw absolute) denied_exact denied_exact-IsCleanAbs

  below_iff :
      (any (under (clean raw)) denied_subtrees ≡ false)
      ↔ All (λ d. ¬ Inside (elements d) (elements raw)) denied_subtrees
  below_iff =
      any-false_iff (under (clean raw)) (λ d. Inside (elements d) (elements raw)) IsDirectory
        (under-clean_iff raw absolute) denied_subtrees denied_subtrees-IsDirectory

-- The checks one by one, as the source makes them.
record Checks (raw : Bytes) (allowed_roots : List Bytes) : Type 0 where
  not_blank : is_empty (trim_space raw) ≡ false
  no_dotdot : contains raw dotdot ≡ false
  absolute : has_prefix raw (b'/' ∷ []) ≡ true
  not_exact : any (eqb (clean raw)) denied_exact ≡ false
  not_below : any (under (clean raw)) denied_subtrees ≡ false
  allowed : allowed_by allowed_roots (clean raw) ≡ ok tt

module _ (raw : Bytes) (allowed_roots : List Bytes) where
  validate-Checks : validate_target_path raw allowed_roots ≡ ok tt → Checks raw allowed_roots
  unfolding validate_target_path
  validate-Checks h = ground arith

  Checks-validate : Checks raw allowed_roots → validate_target_path raw allowed_roots ≡ ok tt
  unfolding validate_target_path
  Checks-validate c = ground arith

pub false_iff : {P : Type 0} (b : Bool) → (b ≡ true) ↔ P → (b ≡ false) ↔ (¬ P)
false_iff true h = (cc, λ n. absurd (n (h.0 refl)))
false_iff false h = ((λ _ p. cc (h.1 p)), λ _. refl)

module _ (raw : Bytes) (allowed_roots : List Bytes) (roots : All IsDirectory allowed_roots) where
  Checks-IsTarget : Checks raw allowed_roots → IsTarget raw allowed_roots
  Checks-IsTarget c =
      let absolute = sym (has_prefix-is_abs raw) ∙ c.absolute in
      record {
        not_blank = (is_empty_iff (trim_space raw)).0 c.not_blank;
        no_dotdot = (false_iff (contains raw dotdot) (contains_iff raw dotdot)).0 c.no_dotdot;
        absolute = absolute;
        not_exact = (exact_iff raw absolute).0 c.not_exact;
        not_below = (below_iff raw absolute).0 c.not_below;
        allowed = (allowed_by_iff raw absolute allowed_roots roots).0 c.allowed;
      }

  IsTarget-Checks : IsTarget raw allowed_roots → Checks raw allowed_roots
  IsTarget-Checks t = record {
    not_blank = (is_empty_iff (trim_space raw)).1 t.not_blank;
    no_dotdot = (false_iff (contains raw dotdot) (contains_iff raw dotdot)).1 t.no_dotdot;
    absolute = has_prefix-is_abs raw ∙ t.absolute;
    not_exact = (exact_iff raw t.absolute).1 t.not_exact;
    not_below = (below_iff raw t.absolute).1 t.not_below;
    allowed = (allowed_by_iff raw t.absolute allowed_roots roots).1 t.allowed;
  }

-- With an allowlist of clean absolute directories other than the root, a target path is accepted
-- exactly if it is not blank, holds no "..", is absolute, is by its elements none of the protected
-- paths and neither one of the protected subtrees nor inside one, and is one of the allowed roots or
-- inside one where there are any.
pub validate_target_path_iff :
    (raw : Bytes) (allowed_roots : List Bytes)
    → All IsDirectory allowed_roots
    → (validate_target_path raw allowed_roots ≡ ok tt) ↔ IsTarget raw allowed_roots
validate_target_path_iff raw allowed_roots roots = (
  λ h. Checks-IsTarget raw allowed_roots roots (validate-Checks raw allowed_roots h),
  λ t. Checks-validate raw allowed_roots (IsTarget-Checks raw allowed_roots roots t),
)
