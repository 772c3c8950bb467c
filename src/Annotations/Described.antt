-- ===== src/Annotations/Described.antt =====
-- What annotations say: a description of the manifest that `Parse` accepts and of its `Spec`.
use orascout.Base.{ℕ, ◌<◌, ◌^◌, true, [], ◌≡◌, ◌≢◌, ◌⊎◌, All, Option, none, some, Bytes, codes}
use orascout.Base.Int.{ℤ}
use orascout.Strconv.{is_digit}
use orascout.Strconv.Laws.{IsBoolWord, place_value}
use orascout.Annotations.{
  RawAnnotations, DeployType, jar, war, static, run_once, hook_only, ServiceManager, systemd_user,
  systemd, unmanaged, unset, Spec, value, annotation, default_health_timeout,
  default_health_interval, key_type, key_source_file, key_source_dir, key_target_path,
  key_target_mode, key_target_owner, key_target_clear, key_target_clear_parent, key_service_name,
  key_service_manager, key_runonce_command, key_hook_pre, key_hook_post, key_health_cmd,
  key_health_timeout, key_health_interval, oci_key_title, oci_key_description, oci_key_version,
}

-- The name of a type in an annotation. A value that names none is no type.
abbrev pub IsTypeName : Bytes → DeployType → Type 0
IsTypeName v jar = v ≡ codes "jar"
IsTypeName v war = v ≡ codes "war"
IsTypeName v static = v ≡ codes "static"
IsTypeName v run_once = v ≡ codes "run-once"
IsTypeName v hook_only = v ≡ codes "hook-only"
IsTypeName v (DeployType.other t) = ⊥

-- The name of a service manager; an absent or blank one leaves it unset.
abbrev pub IsManagerName : Bytes → ServiceManager → Type 0
IsManagerName v unset = v ≡ []
IsManagerName v systemd_user = v ≡ codes "systemd-user"
IsManagerName v systemd = v ≡ codes "systemd"
IsManagerName v unmanaged = v ≡ codes "none"
IsManagerName v (ServiceManager.other m) = ⊥

-- The fields that a deploy of the type needs.
abbrev pub HasRequired : DeployType → Spec → Type 0
HasRequired jar s = (s.source_file ≢ []) × (s.target_path ≢ []) × (s.service_name ≢ [])
HasRequired war s = (s.source_file ≢ []) × (s.target_path ≢ []) × (s.service_name ≢ [])
HasRequired static s = (s.source_dir ≢ []) × (s.target_path ≢ [])
HasRequired run_once s = (s.source_file ≢ []) × (s.runonce_command ≢ [])
HasRequired hook_only s = (s.hook_pre ≢ []) ⊎ (s.hook_post ≢ [])
HasRequired (DeployType.other t) s = ⊥

-- An annotation that is blank, and then there is no value, or that denotes the value.
abbrev pub Denotes {ℓ} : {A : Type ℓ} → Bytes → (A → Type 0) → Option A → Type 0
Denotes v P none = v ≡ []
Denotes v P (some a) = (v ≢ []) × P a

-- Octal digits, whose value fits into 32 bits.
abbrev pub IsFileMode : Bytes → ℕ → Type 0
IsFileMode v m = (v ≢ []) × All (λ c. is_digit 8 c ≡ true) v × (m ≡ place_value 8 v) × (m < 2 ^ 32)

-- A duration, which is the default where the annotation is blank.
abbrev pub IsDuration : (Bytes → Option ℤ) → ℤ → Bytes → ℤ → Type 0
IsDuration parse_duration standard v t =
    ((v ≡ []) × (t ≡ standard)) ⊎ ((v ≢ []) × (parse_duration v ≡ some t))

-- `s` is what the annotations say.
pub record Describes (parse_duration : Bytes → Option ℤ) (raw : RawAnnotations) (s : Spec)
    : Type 0 where
  pub deploy_type : IsTypeName (annotation raw key_type) s.deploy_type
  pub source_file : s.source_file ≡ annotation raw key_source_file
  pub source_dir : s.source_dir ≡ annotation raw key_source_dir
  pub target_path : s.target_path ≡ annotation raw key_target_path
  pub target_mode :
      Denotes
        (annotation raw key_target_mode)
        (IsFileMode (annotation raw key_target_mode))
        s.target_mode
  pub target_owner : s.target_owner ≡ annotation raw key_target_owner
  pub target_clear :
      Denotes
        (annotation raw key_target_clear)
        (IsBoolWord (annotation raw key_target_clear))
        s.target_clear
  pub target_clear_parent :
      Denotes
        (annotation raw key_target_clear_parent)
        (IsBoolWord (annotation raw key_target_clear_parent))
        s.target_clear_parent
  pub service_name : s.service_name ≡ annotation raw key_service_name
  pub service_manager : IsManagerName (annotation raw key_service_manager) s.service_manager
  pub runonce_command : s.runonce_command ≡ annotation raw key_runonce_command
  pub hook_pre : s.hook_pre ≡ annotation raw key_hook_pre
  pub hook_post : s.hook_post ≡ annotation raw key_hook_post
  pub health_cmd : s.health_cmd ≡ annotation raw key_health_cmd
  pub health_timeout :
      IsDuration parse_duration default_health_timeout
        (annotation raw key_health_timeout)
        s.health_timeout
  pub health_interval :
      IsDuration parse_duration default_health_interval
        (annotation raw key_health_interval)
        s.health_interval
  pub title : s.title ≡ value raw oci_key_title
  pub description : s.description ≡ value raw oci_key_description
  pub version : s.version ≡ value raw oci_key_version
  pub required : HasRequired s.deploy_type s
