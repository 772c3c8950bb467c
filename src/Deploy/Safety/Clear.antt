-- ===== src/Deploy/Safety/Clear.antt =====
-- `validateClearPath` and `guardClearDir` against descriptions of what they accept.
use orascout.Base.{◌≤◌, ◌≡◌, ◌↔◌, true, List, arith, length, All, ok, Bytes}
use orascout.Paths.{is_abs, clean, elements}
use orascout.Paths.Elements.{elements-IsName, clean_abs}
use orascout.Paths.Depth.{parts-render}
use orascout.Deploy.Safety.{validate_target_path, validate_clear_path, depth}
use orascout.Deploy.Safety.Denylist.{IsDirectory}
use orascout.Deploy.Safety.Target.{IsTarget, validate_target_path_iff}

depth-clean_iff :
    (raw : Bytes) → is_abs raw ≡ true → (2 ≤ depth (clean raw)) ↔ (2 ≤ length (elements raw))
unfolding depth
depth-clean_iff raw h = rw (clean_abs raw h) (parts-render (elements raw) (elements-IsName raw h))

clear_steps :
    (raw : Bytes) (roots : List Bytes)
    → (validate_clear_path raw roots ≡ ok tt)
      ↔ ((validate_target_path raw roots ≡ ok tt) × (2 ≤ depth (clean raw)))
unfolding validate_clear_path
clear_steps raw roots = ground arith

-- With an allowlist of clean absolute directories other than the root, a directory may be cleared
-- exactly if it is an accepted target and lies at least two levels below the root.
pub validate_clear_path_iff :
    (raw : Bytes) (allowed_roots : List Bytes)
    → All IsDirectory allowed_roots
    → (validate_clear_path raw allowed_roots ≡ ok tt)
      ↔ (IsTarget raw allowed_roots × (2 ≤ length (elements raw)))
validate_clear_path_iff raw roots h =
    let (steps, checks) = clear_steps raw roots in
    let (target, accept) = validate_target_path_iff raw roots h in
    (
      λ e. let t = target (steps e).0 in (t, (depth-clean_iff raw t.absolute).0 (steps e).1),
      λ d. checks (accept d.0, (depth-clean_iff raw d.0.absolute).1 d.1),
    )
