-- ===== src/Deploy/Contained/Accepted.antt =====
-- What an accepted request says of its target and of the directory that it clears, and the paths that
-- a deploy of it may write or remove.
use orascout.Base.{
  ◌⊎◌, ◌≡◌, refl, sym, ap, ◌∙◌, ◌≢◌, Bool, true, false, List, [], ◌∷◌, append-nil, ◌++◌, All,
  All-append, ◌>>◌, ok, err, Bytes,
}
use orascout.Annotations.{Spec, DeployType, jar, war, static}
use orascout.Paths.{is_abs, clean, elements, dir, dotdot, join, render}
use orascout.Paths.Elements.{IsName, elements-IsName, elements-render}
use orascout.Paths.Parents.{last_part}
use orascout.Paths.Joined.{is_abs-names, join-render}
use orascout.Paths.Extend.{IsBelow}
use orascout.Deploy.Files.{tmp_suffix}
use orascout.Deploy.Safety.{
  Check, check_if, validate_target_path, validate_clear_path, validate_as, or_true,
}
use orascout.Deploy.Safety.Denylist.{IsDirectory}
use orascout.Deploy.Safety.Target.{validate_target_path_iff}
use orascout.Deploy.Safety.Cleared.{
  IsClearable, last_ne_dotdot, war_dir-IsClearable, static_dir-IsClearable,
}

-- An entry of the directory with these elements.
pub record IsEntry (ds : List Bytes) (p : Bytes) : Type 0 where
  pub name : Bytes
  pub absolute : is_abs p ≡ true
  pub names : elements p ≡ ds ++ name ∷ []

-- The paths of copying to a file: itself, the temporary file beside it, and the directory of both.
abbrev pub IsCopyPath : Bytes → Bytes → Type 0
IsCopyPath target p = (p ≡ target) ⊎ ((p ≡ target ++ tmp_suffix) ⊎ (p ≡ dir target))

-- What a deploy writes to: for a jar or war the target, the temporary file beside it and their
-- directory, which are in the directory of the target; for a static tree all below the target.
abbrev pub MayWrite : DeployType → Bytes → Bytes → Type 0
MayWrite jar target = λ p. IsBelow (elements (dir target)) p × IsCopyPath target p
MayWrite war target = λ p. IsBelow (elements (dir target)) p × IsCopyPath target p
MayWrite static target = IsBelow (elements target)
MayWrite _ target = λ p. ⊥

-- What a deploy clears: entries of that directory, if clearing is on and the directory is clearable.
abbrev pub MayClear : DeployType → Spec → List Bytes → Bytes → Type 0
MayClear war s roots p =
    (or_true s.target_clear_parent ≡ true)
    × IsClearable roots (elements (dir s.target_path))
    × IsEntry (elements (dir s.target_path)) p
MayClear static s roots p =
    (or_true s.target_clear ≡ true)
    × IsClearable roots (elements s.target_path)
    × IsEntry (elements s.target_path) p
MayClear _ s roots p = ⊥

pub join-IsEntry :
    (d name : Bytes) → is_abs d ≡ true → IsName name → IsEntry (elements d) (join d name)
join-IsEntry d name h n =
    let whole : join d name ≡ render true (elements d ++ name ∷ []) =
      ap (join d) (sym (append-nil name)) ∙ join-render name [] (n, tt) d h in
    record {
      name = name;
      absolute = ap is_abs whole ∙ is_abs-names (elements d ++ name ∷ []);
      names =
          ap elements whole
          ∙ elements-render (elements d ++ name ∷ [])
              (All-append IsName (elements d) (name ∷ []) (elements-IsName d h) (n, tt));
    }

-- A check, and another one under a condition.
pub both_checks :
    (v : Check) (b : Bool) (c : Check)
    → (v >> check_if b c) ≡ ok tt
    → (v ≡ ok tt) × (b ≡ true → c ≡ ok tt)
both_checks (ok tt) true c h = (refl, λ _. h)
both_checks (ok tt) false c h = (refl, λ e. cc e)
both_checks (err e) b c h = cc h

-- A target that jar, war and static deploys have passed.
pub record IsPassed (s : Spec) (roots : List Bytes) : Type 0 where
  pub absolute : is_abs s.target_path ≡ true
  pub last_ok : (last_part s.target_path).last ≢ dotdot

module _ (s : Spec) (roots : List Bytes) (h : All IsDirectory roots) where
  target-IsPassed : validate_target_path s.target_path roots ≡ ok tt → IsPassed s roots
  target-IsPassed v =
      let t = (validate_target_path_iff s.target_path roots h).0 v in
      record { absolute = t.absolute; last_ok = last_ne_dotdot s.target_path t.no_dotdot }

  pub jar-IsPassed : validate_as jar s roots ≡ ok tt → IsPassed s roots
  unfolding validate_as
  jar-IsPassed = target-IsPassed

  pub war-IsPassed :
      validate_as war s roots ≡ ok tt
      → IsPassed s roots
        × (or_true s.target_clear_parent ≡ true → IsClearable roots (elements (dir s.target_path)))
  unfolding validate_as
  war-IsPassed v =
      let (target, clears) =
        both_checks (validate_target_path s.target_path roots) (or_true s.target_clear_parent)
          (validate_clear_path (dir (clean s.target_path)) roots) v in
      (target-IsPassed target, λ e. war_dir-IsClearable roots h s.target_path target (clears e))

  pub static-IsPassed :
      validate_as static s roots ≡ ok tt
      → IsPassed s roots
        × (or_true s.target_clear ≡ true → IsClearable roots (elements s.target_path))
  unfolding validate_as
  static-IsPassed v =
      let (target, clears) =
        both_checks (validate_target_path s.target_path roots) (or_true s.target_clear)
          (validate_clear_path (clean s.target_path) roots) v in
      (target-IsPassed target, λ e. static_dir-IsClearable roots h s.target_path target (clears e))
