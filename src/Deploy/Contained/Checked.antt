-- ===== src/Deploy/Contained/Checked.antt =====
-- What is checked before the first call of a deploy.
use orascout.Base.{ℕ, ◌≡◌, refl, sym, ◌⊎◌, inl, inr, true, List, [], All, Result, ok, err, Bytes}
use orascout.Annotations.{Spec, DeployType, jar, war, static}
use orascout.Host.{◌>>◌}
use orascout.Host.Runs.{stop, Runs, Event}
use orascout.Paths.{elements, dir, clean}
use orascout.Deploy.Safety.{
  Check, SafetyError, validate_as, validate_request, validate_target_path, validate_clear_path,
  or_true,
}
use orascout.Deploy.Safety.Denylist.{IsDirectory}
use orascout.Deploy.Safety.Target.{IsTarget, validate_target_path_iff}
use orascout.Deploy.Safety.Cleared.{IsClearable}
use orascout.Deploy.Errors.{check, DeployError, Try, unsafe}
use orascout.Deploy.Strategies.{Request}
use orascout.Deploy.Run.{run}
use orascout.Deploy.Contained.Accepted.{both_checks, war-IsPassed, static-IsPassed}

-- What a deploy needs of its target and of the directory that it clears.
abbrev pub IsAcceptable : DeployType → Spec → List Bytes → Type 0
IsAcceptable jar s roots = IsTarget s.target_path roots
IsAcceptable war s roots =
    IsTarget s.target_path roots
    × (or_true s.target_clear_parent ≡ true → IsClearable roots (elements (dir s.target_path)))
IsAcceptable static s roots =
    IsTarget s.target_path roots
    × (or_true s.target_clear ≡ true → IsClearable roots (elements s.target_path))
IsAcceptable _ s roots = Unit

module _ (s : Spec) (roots : List Bytes) (h : All IsDirectory roots) where
  validate_as-IsAcceptable :
      (d : DeployType) → validate_as d s roots ≡ ok tt → IsAcceptable d s roots
  unfolding validate_as
  validate_as-IsAcceptable jar v = (validate_target_path_iff s.target_path roots h).0 v
  validate_as-IsAcceptable war v =
      let (target, clears) =
        both_checks (validate_target_path s.target_path roots) (or_true s.target_clear_parent)
          (validate_clear_path (dir (clean s.target_path)) roots) v in
      ((validate_target_path_iff s.target_path roots h).0 target, (war-IsPassed s roots h v).1)
  validate_as-IsAcceptable static v =
      let (target, clears) =
        both_checks (validate_target_path s.target_path roots) (or_true s.target_clear)
          (validate_clear_path (clean s.target_path) roots) v in
      ((validate_target_path_iff s.target_path roots h).0 target, (static-IsPassed s roots h v).1)
  validate_as-IsAcceptable _ v = tt

checked_cases :
    (r : Check) (k : Try (Unit {0})) {result : Result DeployError (Unit {0})} {events : List Event}
    → Runs result (check unsafe r >> k) events
    → (r ≡ ok tt) ⊎ ((events ≡ []) × ((e : SafetyError) × (result ≡ err (unsafe e))))
checked_cases (ok tt) k runs = inl refl
checked_cases (err e) k (stop same) = inr (refl, (e, sym same))

-- With an allowlist of clean absolute directories other than the root, a deploy that makes any call, of
-- a hook, a service or a file, has a target that is acceptable by its elements, if it is of a type that
-- has one, and clears, if at all, a directory that may be cleared. Otherwise it makes no call and ends
-- with an error of the path checks.
pub run-checked :
    (fuel : ℕ) (req : Request) {result : Result DeployError (Unit {0})} {events : List Event}
    → All IsDirectory req.allowed_roots
    → Runs result (run fuel req) events
    → IsAcceptable req.spec.deploy_type req.spec req.allowed_roots
      ⊎ ((events ≡ []) × ((e : SafetyError) × (result ≡ err (unsafe e))))
unfolding run validate_request
run-checked fuel req roots runs =
    elim (checked_cases (validate_request req.spec req.allowed_roots) _ runs) [
      | inl v ↦
          inl (validate_as-IsAcceptable req.spec req.allowed_roots roots req.spec.deploy_type v)
      | inr nothing ↦ inr nothing
    ]
