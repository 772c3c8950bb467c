-- ===== src/Annotations/Known.antt =====
-- Which annotations `Parse` looks at.
use orascout.Base.{List, [], ◌∷◌, ◌≡◌, ◌≢◌, All, arith, Option, Bytes, eqb_iff}
use orascout.Base.Int.{ℤ}
use orascout.Annotations.{
  RawAnnotations, value, parse, optional, key_type, key_source_file, key_source_dir,
  key_target_path, key_target_mode, key_target_owner, key_target_clear, key_target_clear_parent,
  key_service_name, key_service_manager, key_runonce_command, key_hook_pre, key_hook_post,
  key_health_cmd, key_health_timeout, key_health_interval, oci_key_title, oci_key_description,
  oci_key_version,
}

-- The keys of the program's constants that are read.
abbrev pub known_keys : List Bytes
known_keys =
    key_type ∷ key_source_file ∷ key_source_dir ∷ key_target_path ∷ key_target_mode
    ∷ key_target_owner ∷ key_target_clear ∷ key_target_clear_parent ∷ key_service_name
    ∷ key_service_manager ∷ key_runonce_command ∷ key_hook_pre ∷ key_hook_post ∷ key_health_cmd
    ∷ key_health_timeout ∷ key_health_interval ∷ oci_key_title ∷ oci_key_description
    ∷ oci_key_version ∷ []

module _ (parse_duration : Bytes → Option ℤ) where
  -- Two maps with the same values at the known keys are parsed alike.
  pub parse-agree :
      (raw raw' : RawAnnotations)
      → All (λ key. value raw key ≡ value raw' key) known_keys
      → parse parse_duration raw ≡ parse parse_duration raw'
  unfolding parse optional
  parse-agree raw raw' h = simp (
    h.0, h.1.0, h.1.1.0, h.1.1.1.0, h.1.1.1.1.0, h.1.1.1.1.1.0, h.1.1.1.1.1.1.0, h.1.1.1.1.1.1.1.0,
    h.1.1.1.1.1.1.1.1.0, h.1.1.1.1.1.1.1.1.1.0, h.1.1.1.1.1.1.1.1.1.1.0, h.1.1.1.1.1.1.1.1.1.1.1.0,
    h.1.1.1.1.1.1.1.1.1.1.1.1.0, h.1.1.1.1.1.1.1.1.1.1.1.1.1.0, h.1.1.1.1.1.1.1.1.1.1.1.1.1.1.0,
    h.1.1.1.1.1.1.1.1.1.1.1.1.1.1.1.0, h.1.1.1.1.1.1.1.1.1.1.1.1.1.1.1.1.0,
    h.1.1.1.1.1.1.1.1.1.1.1.1.1.1.1.1.1.0, h.1.1.1.1.1.1.1.1.1.1.1.1.1.1.1.1.1.1.0,
  )

value-cons_ne :
    (raw : RawAnnotations) (k v key : Bytes) → key ≢ k → value ((k, v) ∷ raw) key ≡ value raw key
unfolding value
value-cons_ne raw k v key ne = ground (arith, eqb_iff k key)

value-cons_unknown :
    (raw : RawAnnotations) (k v : Bytes) (keys : List Bytes)
    → All (λ key. key ≢ k) keys
    → All (λ key. value ((k, v) ∷ raw) key ≡ value raw key) keys
value-cons_unknown raw k v [] h = tt
value-cons_unknown raw k v (key ∷ keys) h =
    (value-cons_ne raw k v key h.0, value-cons_unknown raw k v keys h.1)

-- An annotation whose key is none of the known ones is ignored: the result of parsing a map with
-- it, an error included, is the result of parsing the map without it.
pub parse-cons_unknown :
    (parse_duration : Bytes → Option ℤ) (raw : RawAnnotations) (k v : Bytes)
    → All (λ key. key ≢ k) known_keys
    → parse parse_duration ((k, v) ∷ raw) ≡ parse parse_duration raw
parse-cons_unknown parse_duration raw k v h =
    parse-agree parse_duration _ _ (value-cons_unknown raw k v known_keys h)
