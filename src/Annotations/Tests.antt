-- ===== src/Annotations/Tests.antt =====
-- Manifests, and the theorems at one of them.
use orascout.Base.{
  ◌≡◌, refl, ◌≢◌, false, Option, none, some, List, [], ◌∷◌, arith, if◌then◌else◌, All, any, Result,
  ok, err, Bytes, codes, eqb, eqb_iff,
}
use orascout.Base.Int.{ℤ, pos}
use orascout.Strings.{trim_space}
use orascout.Strconv.{parse_bool, parse_uint}
use orascout.Annotations.{
  RawAnnotations, value, parse, parse_type, optional, known_manager, service_manager_of,
  parse_file_mode, validate, Spec, AnnotationError, missing_required, unknown_type, no_hook,
  malformed, key_type, key_source_file, key_target_path, key_service_name, key_target_mode,
  key_health_timeout, jar, unset, default_health_interval,
}
use orascout.Annotations.Known.{known_keys, parse-cons_unknown}
use orascout.Annotations.Described.{Describes}
use orascout.Annotations.Laws.{parse_iff}

-- A stand-in for `time.ParseDuration` that knows one text.
abbrev durations : Bytes → Option ℤ
unfolding codes
durations v = if eqb v (codes "1m") then some (pos 60_000_000_000) else none

parses : RawAnnotations → Result AnnotationError Spec
unfolding parse value trim_space parse_type optional known_manager service_manager_of
    parse_file_mode parse_uint parse_bool validate codes
parses = parse durations

abbrev manifest : RawAnnotations
unfolding codes
manifest =
    (key_type, codes "jar")
    ∷ (key_source_file, codes " foo.jar")
    ∷ (key_target_path, codes "/opt/jars/foo.jar")
    ∷ (key_service_name, codes "foo.service")
    ∷ (key_target_mode, codes "0644")
    ∷ (key_health_timeout, codes "1m")
    ∷ []

abbrev spec : Spec
unfolding codes
spec = record {
  deploy_type = jar;
  source_file = codes "foo.jar";
  source_dir = [];
  target_path = codes "/opt/jars/foo.jar";
  target_mode = some 420;
  target_owner = [];
  target_clear = none;
  target_clear_parent = none;
  service_name = codes "foo.service";
  service_manager = unset;
  runonce_command = [];
  hook_pre = [];
  hook_post = [];
  health_cmd = [];
  health_timeout = pos 60_000_000_000;
  health_interval = default_health_interval;
  title = [];
  description = [];
  version = [];
}

parse_manifest : parses manifest ≡ ok spec
unfolding parses
parse_manifest = refl

refused :
    (parses [] ≡ err (missing_required key_type))
    × (parses ((key_type, codes "container") ∷ []) ≡ err (unknown_type (codes "container")))
    × (parses ((key_type, codes "hook-only") ∷ []) ≡ err no_hook)
    × (parses ((key_target_mode, codes "0899") ∷ manifest) ≡ err (malformed key_target_mode))
unfolding parses
refused = (refl, refl, refl, refl)

parse_iff_example : Describes durations manifest spec
unfolding parses
parse_iff_example = (parse_iff durations manifest spec).0 parse_manifest

fresh :
    (k : Bytes) (keys : List Bytes)
    → any (λ key. eqb key k) keys ≡ false
    → All (λ key. key ≢ k) keys
fresh k [] h = tt
fresh k (key ∷ keys) h = (ground (arith, eqb_iff key k), fresh k keys (ground arith))

parse-cons_unknown_example :
    parse durations ((codes "dev.orascout.v2.type", codes "x") ∷ manifest)
    ≡ parse durations manifest
parse-cons_unknown_example =
    parse-cons_unknown durations manifest (codes "dev.orascout.v2.type") (codes "x")
      (fresh (codes "dev.orascout.v2.type") known_keys (unfold codes in refl))
