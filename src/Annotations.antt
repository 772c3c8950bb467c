-- ===== src/Annotations.antt =====
-- pkg/annotations/annotations.go: the parsed `Spec` and `Parse`. The keys are in Keys.
-- A map is an association list in which the first entry of a key counts.
mod Keys
pub mod Described
pub mod Fields
pub mod Laws
pub mod Known
pub mod Tests
unfoldable pub use Keys.*
use orascout.Base.{
  ℕ, Bool, true, false, ◌&&◌, List, [], ◌∷◌, ◌++◌, Option, none, some, Result, ok, err, ◌>>=◌, ◌>>◌,
  reject_if, if◌then◌else◌, Bytes, codes, eqb, is_empty,
}
use orascout.Base.Int.{ℤ, pos}
use orascout.Strings.{trim_space}
use orascout.Strconv.{parse_bool, parse_uint}

-- `Type`, a string: `other` holds each value that the five constants do not name.
pub data DeployType : Type 0 where
  jar war static run_once hook_only : DeployType
  other : Bytes → DeployType

-- `ServiceManager`, a string. The empty one means the default.
pub data ServiceManager : Type 0 where
  systemd_user systemd unmanaged unset : ServiceManager
  other : Bytes → ServiceManager

pub record Spec : Type 0 where
  pub deploy_type : DeployType
  pub source_file : Bytes
  pub source_dir : Bytes
  pub target_path : Bytes
  pub target_mode : Option ℕ
  pub target_owner : Bytes
  pub target_clear : Option Bool
  pub target_clear_parent : Option Bool
  pub service_name : Bytes
  pub service_manager : ServiceManager
  pub runonce_command : Bytes
  pub hook_pre : Bytes
  pub hook_post : Bytes
  pub health_cmd : Bytes
  pub health_timeout : ℤ
  pub health_interval : ℤ
  pub title : Bytes
  pub description : Bytes
  pub version : Bytes

pub data AnnotationError : Type 0 where
  missing_required : Bytes → AnnotationError
  unknown_type : Bytes → AnnotationError
  malformed : Bytes → AnnotationError
  unknown_manager : Bytes → AnnotationError
  no_hook : AnnotationError

abbrev pub RawAnnotations : Type 0
RawAnnotations = List (Bytes × Bytes)

-- `raw[key]`, which is empty for a missing key.
unfoldable pub value : RawAnnotations → Bytes → Bytes
value [] key = []
value ((k, v) ∷ raw) key = if eqb k key then v else value raw key

-- `strings.TrimSpace(raw[key])`
abbrev pub annotation : RawAnnotations → Bytes → Bytes
annotation raw key = trim_space (value raw key)

-- `Type(t)`
unfoldable pub deploy_type_of : Bytes → DeployType
unfolding codes
deploy_type_of t =
    if eqb t (codes "jar")
    then jar
    else if eqb t (codes "war")
    then war
    else if eqb t (codes "static")
    then static
    else if eqb t (codes "run-once")
    then run_once
    else if eqb t (codes "hook-only")
    then hook_only
    else DeployType.other t

-- `ServiceManager(v)`
unfoldable pub service_manager_of : Bytes → ServiceManager
unfolding codes
service_manager_of v =
    if is_empty v
    then unset
    else if eqb v (codes "systemd")
    then systemd
    else if eqb v (codes "systemd-user")
    then systemd_user
    else if eqb v (codes "none")
    then unmanaged
    else ServiceManager.other v

abbrev supported : DeployType → Result AnnotationError DeployType
supported (DeployType.other t) = err (unknown_type t)
supported t = ok t

-- The first switch of `Parse`.
unfoldable pub parse_type : Bytes → Result AnnotationError DeployType
unfolding deploy_type_of
parse_type t = if is_empty t then err (missing_required key_type) else supported (deploy_type_of t)

unfoldable pub known_manager : ServiceManager → Result AnnotationError ServiceManager
known_manager (ServiceManager.other v) = err (unknown_manager v)
known_manager m = ok m

abbrev pub or_malformed {ℓ} : {A : Type ℓ} → Bytes → Option A → Result AnnotationError (Option A)
or_malformed key none = err (malformed key)
or_malformed key (some a) = ok (some a)

-- `if v := annotation; v != "" { parse it, or fail }`
unfoldable pub optional {ℓ} :
    {A : Type ℓ} → RawAnnotations → Bytes → (Bytes → Option A) → Result AnnotationError (Option A)
optional raw key parser =
    if is_empty (annotation raw key)
    then ok none
    else or_malformed key (parser (annotation raw key))

abbrev pub or_default : ℤ → Option ℤ → ℤ
or_default d none = d
or_default d (some t) = t

-- Octal digits, of a `uint32`.
unfoldable pub parse_file_mode : Bytes → Option ℕ
parse_file_mode s = parse_uint s 8 32

abbrev pub default_health_timeout : ℤ
default_health_timeout = pos 30_000_000_000

abbrev pub default_health_interval : ℤ
default_health_interval = pos 2_000_000_000

abbrev require : Bytes → Bytes → Result AnnotationError (Unit {0})
require field key = reject_if (is_empty field) (missing_required key)

validate_as : DeployType → Spec → Result AnnotationError (Unit {0})
validate_as jar s = do
  require s.source_file key_source_file
  require s.target_path key_target_path
  require s.service_name key_service_name
validate_as war s = do
  require s.source_file key_source_file
  require s.target_path key_target_path
  require s.service_name key_service_name
validate_as static s = do require s.source_dir key_source_dir; require s.target_path key_target_path
validate_as run_once s = do
  require s.source_file key_source_file
  require s.runonce_command key_runonce_command
validate_as hook_only s = reject_if (is_empty s.hook_pre && is_empty s.hook_post) no_hook
validate_as (DeployType.other t) s = ok tt

-- `(s *Spec) validate()`
unfoldable pub validate : Spec → Result AnnotationError (Unit {0})
unfolding validate_as
validate s = validate_as s.deploy_type s

-- `time.ParseDuration` scales fractions in floating point, and is a parameter: its result in
-- nanoseconds, or `none` for an error.
module _ (parse_duration : Bytes → Option ℤ) where
  unfoldable pub parse : RawAnnotations → Result AnnotationError Spec
  parse raw = do
    deploy_type ← parse_type (annotation raw key_type)
    mode ← optional raw key_target_mode parse_file_mode
    clear ← optional raw key_target_clear parse_bool
    clear_parent ← optional raw key_target_clear_parent parse_bool
    manager ← known_manager (service_manager_of (annotation raw key_service_manager))
    timeout ← optional raw key_health_timeout parse_duration
    interval ← optional raw key_health_interval parse_duration
    let s : Spec = record {
      deploy_type = deploy_type;
      source_file = annotation raw key_source_file;
      source_dir = annotation raw key_source_dir;
      target_path = annotation raw key_target_path;
      target_mode = mode;
      target_owner = annotation raw key_target_owner;
      target_clear = clear;
      target_clear_parent = clear_parent;
      service_name = annotation raw key_service_name;
      service_manager = manager;
      runonce_command = annotation raw key_runonce_command;
      hook_pre = annotation raw key_hook_pre;
      hook_post = annotation raw key_hook_post;
      health_cmd = annotation raw key_health_cmd;
      health_timeout = or_default default_health_timeout timeout;
      health_interval = or_default default_health_interval interval;
      title = value raw oci_key_title;
      description = value raw oci_key_description;
      version = value raw oci_key_version;
    }
    validate s
    ok s

abbrev or_systemd_user : ServiceManager → ServiceManager
or_systemd_user unset = systemd_user
or_systemd_user m = m

-- `(s *Spec) EffectiveServiceManager()`
unfoldable pub effective_service_manager : Spec → ServiceManager
effective_service_manager s = or_systemd_user s.service_manager
