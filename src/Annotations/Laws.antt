-- ===== src/Annotations/Laws.antt =====
-- `Parse` against a description of the manifest that it accepts and of the `Spec` that it returns.
use orascout.Base.{◌≡◌, ◌↔◌, refl, arith, Option, ok, ◌>>=◌, Bytes}
use orascout.Base.Int.{ℤ}
use orascout.Strconv.{parse_bool}
use orascout.Annotations.{
  RawAnnotations, DeployType, jar, Spec, value, annotation, parse, validate, parse_type, optional,
  parse_file_mode, known_manager, service_manager_of, or_default, default_health_timeout,
  default_health_interval, key_type, key_source_file, key_source_dir, key_target_path,
  key_target_mode, key_target_owner, key_target_clear, key_target_clear_parent, key_service_name,
  key_service_manager, key_runonce_command, key_hook_pre, key_hook_post, key_health_cmd,
  key_health_timeout, key_health_interval, oci_key_title, oci_key_description, oci_key_version,
}
use orascout.Annotations.Described.{IsTypeName, HasRequired, Describes}
use orascout.Annotations.Fields.{parse_type_iff, manager_iff, mode_iff, flag_iff, time_iff}

-- The results of the steps, as the fields of the `Spec`.
record Steps (parse_duration : Bytes → Option ℤ) (raw : RawAnnotations) (s : Spec) : Type 0 where
  deploy_type : parse_type (annotation raw key_type) ≡ ok s.deploy_type
  target_mode : optional raw key_target_mode parse_file_mode ≡ ok s.target_mode
  target_clear : optional raw key_target_clear parse_bool ≡ ok s.target_clear
  target_clear_parent : optional raw key_target_clear_parent parse_bool ≡ ok s.target_clear_parent
  service_manager :
      known_manager (service_manager_of (annotation raw key_service_manager)) ≡ ok s.service_manager
  health_timeout :
      optional raw key_health_timeout parse_duration
        >>= (λ o. ok (or_default default_health_timeout o))
      ≡ ok s.health_timeout
  health_interval :
      optional raw key_health_interval parse_duration
        >>= (λ o. ok (or_default default_health_interval o))
      ≡ ok s.health_interval
  source_file : s.source_file ≡ annotation raw key_source_file
  source_dir : s.source_dir ≡ annotation raw key_source_dir
  target_path : s.target_path ≡ annotation raw key_target_path
  target_owner : s.target_owner ≡ annotation raw key_target_owner
  service_name : s.service_name ≡ annotation raw key_service_name
  runonce_command : s.runonce_command ≡ annotation raw key_runonce_command
  hook_pre : s.hook_pre ≡ annotation raw key_hook_pre
  hook_post : s.hook_post ≡ annotation raw key_hook_post
  health_cmd : s.health_cmd ≡ annotation raw key_health_cmd
  title : s.title ≡ value raw oci_key_title
  description : s.description ≡ value raw oci_key_description
  version : s.version ≡ value raw oci_key_version
  valid : validate s ≡ ok tt

module _ (parse_duration : Bytes → Option ℤ) (raw : RawAnnotations) (s : Spec) where
  parse-Steps : parse parse_duration raw ≡ ok s → Steps parse_duration raw s
  unfolding parse
  parse-Steps h = ground arith

  Steps-parse : Steps parse_duration raw s → parse parse_duration raw ≡ ok s
  unfolding parse
  Steps-parse h = ground arith

validate_iff :
    (t : DeployType) (v : Bytes) (s : Spec)
    → s.deploy_type ≡ t
    → IsTypeName v t
    → (validate s ≡ ok tt) ↔ HasRequired t s
unfolding validate
validate_iff jar v s e k = ground arith
validate_iff _ v s e k = ground arith

module _ (pd : Bytes → Option ℤ) (raw : RawAnnotations) (s : Spec) where
  Steps-Describes : Steps pd raw s → Describes pd raw s
  Steps-Describes t =
      let named = (parse_type_iff (annotation raw key_type) s.deploy_type).0 t.deploy_type in
      record {
        deploy_type = named;
        source_file = t.source_file;
        source_dir = t.source_dir;
        target_path = t.target_path;
        target_owner = t.target_owner;
        service_name = t.service_name;
        runonce_command = t.runonce_command;
        hook_pre = t.hook_pre;
        hook_post = t.hook_post;
        health_cmd = t.health_cmd;
        title = t.title;
        description = t.description;
        version = t.version;
        target_mode = (mode_iff raw s.target_mode).0 t.target_mode;
        target_clear = (flag_iff raw key_target_clear s.target_clear).0 t.target_clear;
        target_clear_parent =
            (flag_iff raw key_target_clear_parent s.target_clear_parent).0 t.target_clear_parent;
        service_manager =
            (manager_iff (annotation raw key_service_manager) s.service_manager).0
              t.service_manager;
        health_timeout =
            (time_iff raw key_health_timeout pd default_health_timeout s.health_timeout).0
              t.health_timeout;
        health_interval =
            (time_iff raw key_health_interval pd default_health_interval s.health_interval).0
              t.health_interval;
        required = (validate_iff s.deploy_type (annotation raw key_type) s refl named).0 t.valid;
      }

  Describes-Steps : Describes pd raw s → Steps pd raw s
  Describes-Steps d = record {
    deploy_type = (parse_type_iff (annotation raw key_type) s.deploy_type).1 d.deploy_type;
    source_file = d.source_file;
    source_dir = d.source_dir;
    target_path = d.target_path;
    target_owner = d.target_owner;
    service_name = d.service_name;
    runonce_command = d.runonce_command;
    hook_pre = d.hook_pre;
    hook_post = d.hook_post;
    health_cmd = d.health_cmd;
    title = d.title;
    description = d.description;
    version = d.version;
    target_mode = (mode_iff raw s.target_mode).1 d.target_mode;
    target_clear = (flag_iff raw key_target_clear s.target_clear).1 d.target_clear;
    target_clear_parent =
        (flag_iff raw key_target_clear_parent s.target_clear_parent).1 d.target_clear_parent;
    service_manager =
        (manager_iff (annotation raw key_service_manager) s.service_manager).1 d.service_manager;
    health_timeout =
        (time_iff raw key_health_timeout pd default_health_timeout s.health_timeout).1
          d.health_timeout;
    health_interval =
        (time_iff raw key_health_interval pd default_health_interval s.health_interval).1
          d.health_interval;
    valid =
        (validate_iff s.deploy_type (annotation raw key_type) s refl d.deploy_type).1 d.required;
  }

-- `Parse` succeeds with `s` exactly if `s` is what the annotations say: the type is one of the five
-- and the fields that it needs are not blank; each text field is its annotation without the white
-- space around it; the optional fields are absent where their annotation is blank, and are otherwise
-- an octal mode below 2^32, a Boolean word or a duration, with the default durations for blank ones;
-- the service manager is one of the three or unset.
pub parse_iff :
    (parse_duration : Bytes → Option ℤ) (raw : RawAnnotations) (s : Spec)
    → (parse parse_duration raw ≡ ok s) ↔ Describes parse_duration raw s
parse_iff pd raw s = (
  λ h. Steps-Describes pd raw s (parse-Steps pd raw s h),
  λ d. Steps-parse pd raw s (Describes-Steps pd raw s d),
)
