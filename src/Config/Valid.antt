-- ===== src/Config/Valid.antt =====
-- What holds of a configuration that `Load` accepts.
use orascout.Base.{
  ℕ, ◌≡◌, sym, ap, ◌∙◌, subst, ◌≢◌, inl, inr, true, false, Option, none, some, List, [], ◌∷◌, arith,
  Option-cases, All, ◌>>=◌, bind-eq-ok, ok, Bytes, eqb_iff, is_empty,
}
use orascout.Base.Int.{pos, ltb_ℤ}
use orascout.Strings.{contains, trim_space}
use orascout.Strings.Laws.{Occurs, contains_iff}
use orascout.Paths.{is_abs, clean, render}
use orascout.Paths.Elements.{clean_abs, is_abs-clean, clean-clean, elements-clean}
use orascout.Deploy.Safety.Denylist.{IsDirectory}
use orascout.Deploy.Safety.Target.{false_iff, is_empty_iff, has_prefix-is_abs}
use orascout.Config.{
  expand_env, or_text, apply_defaults, is_nil, Config, clean_root, clean_roots, validate, load,
  second,
}

pub record IsValid (c : Config) : Type 0 where
  pub has_registry : c.registry_prefix ≢ []
  pub no_scheme : ¬ Occurs (b':' ∷ b'/' ∷ b'/' ∷ []) c.registry_prefix
  pub has_repos : c.repos ≢ []
  pub poll_at_least : ltb_ℤ c.poll_interval (pos second) ≡ false
  pub roots : All IsDirectory c.allowed_target_roots

clean_root-absolute :
    (r : Bytes) {d : Bytes}
    → clean_root r ≡ ok d
    → (is_abs (trim_space r) ≡ true) × (clean (trim_space r) ≡ d) × (d ≢ b'/' ∷ [])
unfolding clean_root
clean_root-absolute r {d} h =
    ground (arith, has_prefix-is_abs (trim_space r), eqb_iff (clean (trim_space r)) (b'/' ∷ []))

clean_root-IsDirectory : (r : Bytes) {d : Bytes} → clean_root r ≡ ok d → IsDirectory d
clean_root-IsDirectory r {d} h =
    let (absolute, cleaned, ne) = clean_root-absolute r h in
    rw (← cleaned) (record {
      absolute = is_abs-clean _ absolute;
      stable = clean-clean _ absolute;
      not_root = λ e. ne (
          sym cleaned
          ∙ clean_abs _ absolute
          ∙ ap (render true) (sym (elements-clean _ absolute) ∙ e));
    })

clean_roots-IsDirectory :
    (roots : List Bytes) {cleaned : List Bytes}
    → clean_roots roots ≡ ok cleaned
    → All IsDirectory cleaned
unfolding clean_roots
clean_roots-IsDirectory [] {cleaned} h =
    let same : [] ≡ cleaned = ground arith in subst (All IsDirectory) same tt
clean_roots-IsDirectory (r ∷ roots) {cleaned} h =
    let (d, first, h') =
      bind-eq-ok (clean_root r) (λ d. clean_roots roots >>= λ ds. ok (d ∷ ds)) h in
    let (ds, others, e) = bind-eq-ok (clean_roots roots) (λ ds. ok (d ∷ ds)) h' in
    let same : d ∷ ds ≡ cleaned = ground arith in
    subst (All IsDirectory) same
      (clean_root-IsDirectory r first, clean_roots-IsDirectory roots others)

-- The checks of `validate`, one by one.
record Checks (c d : Config) : Type 0 where
  has_registry : is_empty d.registry_prefix ≡ false
  no_scheme : contains d.registry_prefix (b':' ∷ b'/' ∷ b'/' ∷ []) ≡ false
  has_repos : is_nil d.repos ≡ false
  poll_at_least : ltb_ℤ d.poll_interval (pos second) ≡ false
  roots : clean_roots c.allowed_target_roots ≡ ok d.allowed_target_roots
  same : d ≡ record c { allowed_target_roots = d.allowed_target_roots }

validate-Checks : (c : Config) {d : Config} → validate c ≡ ok d → Checks c d
unfolding validate
validate-Checks c h = ground arith

is_nil-ne : (rs : List Bytes) → is_nil rs ≡ false → rs ≢ []
is_nil-ne [] h = cc
is_nil-ne (r ∷ rs) h = λ e. cc e

validate-IsValid : (c : Config) {d : Config} → validate c ≡ ok d → IsValid d
validate-IsValid c {d} h =
    let k = validate-Checks c h in
    record {
      has_registry = (is_empty_iff d.registry_prefix).0 k.has_registry;
      no_scheme =
          (false_iff (contains d.registry_prefix (b':' ∷ b'/' ∷ b'/' ∷ []))
              (contains_iff d.registry_prefix _)).0
            k.no_scheme;
      has_repos = is_nil-ne d.repos k.has_repos;
      poll_at_least = k.poll_at_least;
      roots = clean_roots-IsDirectory c.allowed_target_roots k.roots;
    }

-- The paths that have defaults are not empty.
pub record HasPaths (c : Config) : Type 0 where
  pub artifacts_dir : c.artifacts_dir ≢ []
  pub state_file : c.state_file ≢ []
  pub lock_file : c.lock_file ≢ []

or_text-ne : (s : Bytes) (a : ℕ) (standard : Bytes) → or_text s (a ∷ standard) ≢ []
or_text-ne [] a standard = λ e. cc e
or_text-ne (c ∷ s) a standard = λ e. cc e

apply_defaults-HasPaths : (c : Config) → HasPaths (apply_defaults c)
unfolding apply_defaults
apply_defaults-HasPaths c = record {
  artifacts_dir = or_text-ne c.artifacts_dir _ _;
  state_file = or_text-ne c.state_file _ _;
  lock_file = or_text-ne c.lock_file _ _;
}

expand_env-HasPaths :
    (getenv : Bytes → Bytes) (c : Config) → HasPaths (expand_env getenv (apply_defaults c))
unfolding expand_env
expand_env-HasPaths getenv c = ground (arith, apply_defaults-HasPaths c)

HasPaths-validate : (c : Config) {d : Config} → HasPaths c → validate c ≡ ok d → HasPaths d
HasPaths-validate c p h = ground (arith, (validate-Checks c h).same)

-- A configuration that `Load` returns is valid: the registry prefix is not empty and holds no
-- "://", there is a repository, the poll interval is at least a second, and each allowed root is a
-- clean absolute directory other than the root directory, as the checks on target paths assume.
-- The directories of the artifacts, the state and the lock are not empty.
pub load-IsValid :
    (getenv : Bytes → Bytes) (unmarshal : Bytes → Option Config) (file : Option Bytes) {d : Config}
    → load getenv unmarshal file ≡ ok d
    → IsValid d × HasPaths d
unfolding load
load-IsValid getenv unmarshal none h = cc
load-IsValid getenv unmarshal (some raw) h = elim (Option-cases (unmarshal raw)) [
  | inl bad ↦ absurd (ground arith)
  | inr (c, read) ↦
      let checked = expand_env getenv (apply_defaults c) in
      let accepted : validate checked ≡ ok _ = ground arith in
      (
        validate-IsValid checked accepted,
        HasPaths-validate checked (expand_env-HasPaths getenv c) accepted,
      )
]
