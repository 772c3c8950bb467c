-- ===== src/Deploy/Safety.antt =====
-- internal/deploy/safety.go: the checks on the paths that a manifest names.
pub mod Denylist
pub mod Target
pub mod Clear
pub mod Cleared
pub mod Artifact
pub mod Tests
use orascout.Base.{
  ℕ, Bool, true, false, not, ◌&&◌, ◌||◌, List, [], ◌∷◌, ◌++◌, Option, none, some, Result, ok, err,
  ◌>>=◌, ◌>>◌, reject_if, if◌then◌else◌, length, any, ltb, ◌==◌, Bytes, codes, eqb, is_empty,
}
use orascout.Host.{OsResult, not_exist}
use orascout.Strings.{has_prefix, contains, split, trim_space, trim_byte}
use orascout.Paths.{is_abs, clean, dir, join, dotdot}
use orascout.Paths.Inside.{under}
use orascout.Annotations.{Spec, DeployType, jar, war, static, run_once, hook_only}

-- `deniedExact`
abbrev pub denied_exact : List Bytes
unfolding codes
denied_exact =
    codes "/"
    ∷ codes "/bin"
    ∷ codes "/boot"
    ∷ codes "/dev"
    ∷ codes "/etc"
    ∷ codes "/home"
    ∷ codes "/lib"
    ∷ codes "/lib64"
    ∷ codes "/media"
    ∷ codes "/mnt"
    ∷ codes "/opt"
    ∷ codes "/proc"
    ∷ codes "/root"
    ∷ codes "/run"
    ∷ codes "/sbin"
    ∷ codes "/srv"
    ∷ codes "/sys"
    ∷ codes "/tmp"
    ∷ codes "/usr"
    ∷ codes "/usr/local"
    ∷ codes "/var"
    ∷ codes "/var/lib"
    ∷ codes "/var/log"
    ∷ codes "/var/tmp"
    ∷ codes "/var/www"
    ∷ []

-- `deniedSubtrees`
abbrev pub denied_subtrees : List Bytes
unfolding codes
denied_subtrees =
    codes "/bin"
    ∷ codes "/boot"
    ∷ codes "/dev"
    ∷ codes "/etc"
    ∷ codes "/lib"
    ∷ codes "/lib32"
    ∷ codes "/lib64"
    ∷ codes "/libx32"
    ∷ codes "/proc"
    ∷ codes "/root"
    ∷ codes "/run"
    ∷ codes "/sbin"
    ∷ codes "/sys"
    ∷ codes "/usr/bin"
    ∷ codes "/usr/lib"
    ∷ codes "/usr/lib32"
    ∷ codes "/usr/lib64"
    ∷ codes "/usr/libexec"
    ∷ codes "/usr/sbin"
    ∷ codes "/usr/share"
    ∷ codes "/var/lib/orascout"
    ∷ codes "/var/log/orascout"
    ∷ codes "/var/run"
    ∷ codes "/var/spool/cron"
    ∷ []

pub data SafetyError : Type 0 where
  empty_target traversal not_absolute protected_path protected_subtree outside_roots : SafetyError
  too_shallow resolve_failed empty_path not_relative escapes : SafetyError

abbrev pub Check : Type 0
Check = Result SafetyError (Unit {0})

-- The allowlist, which an empty list switches off.
abbrev pub allowed_by : List Bytes → Bytes → Check
allowed_by [] p = ok tt
allowed_by (r ∷ roots) p = reject_if (not (any (under p) (r ∷ roots))) outside_roots

-- `validateTargetPath(raw, allowedRoots)`
unfoldable pub validate_target_path : Bytes → List Bytes → Check
validate_target_path raw allowed_roots = do
  reject_if (is_empty (trim_space raw)) empty_target
  reject_if (contains raw dotdot) traversal
  reject_if (not (has_prefix raw (b'/' ∷ []))) not_absolute
  let p = clean raw
  reject_if (any (eqb p) denied_exact) protected_path
  reject_if (any (under p) denied_subtrees) protected_subtree
  allowed_by allowed_roots p

-- The number of levels of a cleaned path, as `validateClearPath` counts it.
unfoldable pub depth : Bytes → ℕ
depth p = length (split (trim_byte p b'/') b'/')

-- `validateClearPath(raw, allowedRoots)`
unfoldable pub validate_clear_path : Bytes → List Bytes → Check
validate_clear_path raw allowed_roots = do
  validate_target_path raw allowed_roots
  reject_if (ltb (depth (clean raw)) 2) too_shallow

-- `"C:/x"` becomes `"/x"`.
abbrev drop_drive : Bytes → Bytes
drop_drive (a ∷ c ∷ []) = if c == b':' then b'/' ∷ [] else a ∷ c ∷ []
drop_drive (a ∷ c ∷ d ∷ p) = if c == b':' then d ∷ p else a ∷ c ∷ d ∷ p
drop_drive p = p

-- `guardClearDir(dir)`, from the reply of `filepath.EvalSymlinks`.
unfoldable pub guard_clear_dir : OsResult Bytes → Check
guard_clear_dir (err not_exist) = ok tt
guard_clear_dir (err e) = err resolve_failed
guard_clear_dir (ok p) = validate_clear_path (drop_drive p) []

-- `securePathJoin(baseDir, rel)`
unfoldable pub secure_path_join : Bytes → Bytes → Result SafetyError Bytes
secure_path_join base_dir rel = do
  reject_if (is_empty (trim_space rel)) empty_path
  reject_if (is_abs rel) not_relative
  let base = clean base_dir
  let joined = join base rel
  reject_if (not (eqb joined base) && not (has_prefix joined (base ++ b'/' ∷ []))) escapes
  ok joined

-- A `*bool` whose default is true.
abbrev pub or_true : Option Bool → Bool
or_true none = true
or_true (some b) = b

abbrev pub check_if : Bool → Check → Check
check_if b check = if b then check else ok tt

unfoldable pub validate_as : DeployType → Spec → List Bytes → Check
validate_as jar s roots = validate_target_path s.target_path roots
validate_as war s roots = do
  validate_target_path s.target_path roots
  check_if (or_true s.target_clear_parent) (validate_clear_path (dir (clean s.target_path)) roots)
validate_as static s roots = do
  validate_target_path s.target_path roots
  check_if (or_true s.target_clear) (validate_clear_path (clean s.target_path) roots)
validate_as run_once s roots = ok tt
validate_as hook_only s roots = ok tt
validate_as (DeployType.other t) s roots = ok tt

-- `validateRequest(req)`, from the request's `Spec` and `AllowedRoots`.
unfoldable pub validate_request : Spec → List Bytes → Check
unfolding validate_as
validate_request s allowed_roots = validate_as s.deploy_type s allowed_roots
