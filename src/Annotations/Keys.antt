-- ===== src/Annotations/Keys.antt =====
-- pkg/annotations/annotations.go: the annotation keys.
use orascout.Base.{◌++◌, Bytes, codes}

abbrev pub namespace : Bytes
unfolding codes
namespace = codes "dev.orascout.v1"

abbrev pub key_type : Bytes
unfolding codes
key_type = namespace ++ codes ".type"

abbrev pub key_source_file : Bytes
unfolding codes
key_source_file = namespace ++ codes ".source.file"

abbrev pub key_source_dir : Bytes
unfolding codes
key_source_dir = namespace ++ codes ".source.dir"

abbrev pub key_target_path : Bytes
unfolding codes
key_target_path = namespace ++ codes ".target.path"

abbrev pub key_target_mode : Bytes
unfolding codes
key_target_mode = namespace ++ codes ".target.mode"

abbrev pub key_target_owner : Bytes
unfolding codes
key_target_owner = namespace ++ codes ".target.owner"

abbrev pub key_target_clear : Bytes
unfolding codes
key_target_clear = namespace ++ codes ".target.clear"

abbrev pub key_target_clear_parent : Bytes
unfolding codes
key_target_clear_parent = namespace ++ codes ".target.clear-parent"

abbrev pub key_service_name : Bytes
unfolding codes
key_service_name = namespace ++ codes ".service.name"

abbrev pub key_service_manager : Bytes
unfolding codes
key_service_manager = namespace ++ codes ".service.manager"

abbrev pub key_runonce_command : Bytes
unfolding codes
key_runonce_command = namespace ++ codes ".runonce.command"

abbrev pub key_hook_pre : Bytes
unfolding codes
key_hook_pre = namespace ++ codes ".hook.pre"

abbrev pub key_hook_post : Bytes
unfolding codes
key_hook_post = namespace ++ codes ".hook.post"

abbrev pub key_health_cmd : Bytes
unfolding codes
key_health_cmd = namespace ++ codes ".healthcheck.cmd"

abbrev pub key_health_timeout : Bytes
unfolding codes
key_health_timeout = namespace ++ codes ".healthcheck.timeout"

abbrev pub key_health_interval : Bytes
unfolding codes
key_health_interval = namespace ++ codes ".healthcheck.interval"

abbrev pub oci_key_title : Bytes
unfolding codes
oci_key_title = codes "org.opencontainers.image.title"

abbrev pub oci_key_description : Bytes
unfolding codes
oci_key_description = codes "org.opencontainers.image.description"

abbrev pub oci_key_version : Bytes
unfolding codes
oci_key_version = codes "org.opencontainers.image.version"
