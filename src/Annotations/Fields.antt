-- ===== src/Annotations/Fields.antt =====
-- Each step of `Parse` against its part of the description.
use orascout.Base.{
  ℕ, Bool, [], ◌∷◌, ◌≡◌, ◌↔◌, arith, Option, none, some, ok, ◌>>=◌, Bytes, codes, is_empty,
  if◌then◌else◌, eqb_iff,
}
use orascout.Base.Int.{ℤ}
use orascout.Strconv.{parse_bool}
use orascout.Strconv.Laws.{IsBoolWord, parse_bool_iff, parse_uint_iff}
use orascout.Annotations.{
  RawAnnotations, DeployType, jar, ServiceManager, unset, annotation, parse_type, optional,
  parse_file_mode, known_manager, or_malformed, service_manager_of, or_default, key_target_mode,
}
use orascout.Annotations.Described.{IsTypeName, IsManagerName, Denotes, IsFileMode, IsDuration}

pub parse_type_iff : (v : Bytes) (t : DeployType) → (parse_type v ≡ ok t) ↔ IsTypeName v t
unfolding parse_type
parse_type_iff [] jar = ground arith
parse_type_iff [] _ = ground arith
parse_type_iff (c ∷ v) jar = ground (
  arith,
  eqb_iff (c ∷ v) (codes "jar"),
  eqb_iff (c ∷ v) (codes "war"),
  eqb_iff (c ∷ v) (codes "static"),
  eqb_iff (c ∷ v) (codes "run-once"),
  eqb_iff (c ∷ v) (codes "hook-only"),
)
parse_type_iff (c ∷ v) _ = ground (
  arith,
  eqb_iff (c ∷ v) (codes "jar"),
  eqb_iff (c ∷ v) (codes "war"),
  eqb_iff (c ∷ v) (codes "static"),
  eqb_iff (c ∷ v) (codes "run-once"),
  eqb_iff (c ∷ v) (codes "hook-only"),
)

pub manager_iff :
    (v : Bytes) (m : ServiceManager)
    → (known_manager (service_manager_of v) ≡ ok m) ↔ IsManagerName v m
unfolding known_manager service_manager_of
manager_iff [] unset = ground arith
manager_iff [] _ = ground arith
manager_iff (c ∷ v) unset = ground (
  arith,
  eqb_iff (c ∷ v) (codes "systemd"),
  eqb_iff (c ∷ v) (codes "systemd-user"),
  eqb_iff (c ∷ v) (codes "none"),
)
manager_iff (c ∷ v) _ = ground (
  arith,
  eqb_iff (c ∷ v) (codes "systemd"),
  eqb_iff (c ∷ v) (codes "systemd-user"),
  eqb_iff (c ∷ v) (codes "none"),
)

module _ {A : Type 0} (key : Bytes) (parser : Bytes → Option A) where
  optional_at :
      (v : Bytes) (o : Option A)
      → ((if is_empty v then ok none else or_malformed key (parser v)) ≡ ok o)
        ↔ Denotes v (λ a. parser v ≡ some a) o
  optional_at [] none = ground arith
  optional_at [] (some a) = ground arith
  optional_at (c ∷ v) none = ground arith
  optional_at (c ∷ v) (some a) = ground arith

-- An optional annotation, by what its parser accepts.
optional_iff :
    {A : Type 0} (raw : RawAnnotations) (key : Bytes) (parser : Bytes → Option A) (P : A → Type 0)
    → ((a : A) → (parser (annotation raw key) ≡ some a) ↔ P a)
    → (o : Option A) → (optional raw key parser ≡ ok o) ↔ Denotes (annotation raw key) P o
unfolding optional
optional_iff raw key parser P h none = optional_at key parser (annotation raw key) none
optional_iff raw key parser P h (some a) =
    let (there, back) = optional_at key parser (annotation raw key) (some a) in
    (λ e. ((there e).0, (h a).0 (there e).1), λ d. back (d.0, (h a).1 d.1))

pub mode_iff :
    (raw : RawAnnotations) (m : Option ℕ)
    → (optional raw key_target_mode parse_file_mode ≡ ok m)
      ↔ Denotes (annotation raw key_target_mode) (IsFileMode (annotation raw key_target_mode)) m
unfolding parse_file_mode
mode_iff raw =
    optional_iff raw key_target_mode parse_file_mode _
      (parse_uint_iff 8 32 (annotation raw key_target_mode))

pub flag_iff :
    (raw : RawAnnotations) (key : Bytes) (b : Option Bool)
    → (optional raw key parse_bool ≡ ok b)
      ↔ Denotes (annotation raw key) (IsBoolWord (annotation raw key)) b
flag_iff raw key = optional_iff raw key parse_bool _ (parse_bool_iff (annotation raw key))

module _ (key : Bytes) (parse_duration : Bytes → Option ℤ) (standard t : ℤ) where
  time_at :
      (v : Bytes)
      → ((if is_empty v then ok none else or_malformed key (parse_duration v))
            >>= (λ o. ok (or_default standard o))
          ≡ ok t)
        ↔ IsDuration parse_duration standard v t
  time_at [] = ground arith
  time_at (c ∷ v) = ground arith

pub time_iff :
    (raw : RawAnnotations) (key : Bytes) (parse_duration : Bytes → Option ℤ) (standard t : ℤ)
    → (optional raw key parse_duration >>= (λ o. ok (or_default standard o)) ≡ ok t)
      ↔ IsDuration parse_duration standard (annotation raw key) t
unfolding optional
time_iff raw key parse_duration standard t =
    time_at key parse_duration standard t (annotation raw key)
