-- ===== src/Config.antt =====
-- internal/config/config.go: the daemon's configuration.
pub mod Valid
pub mod Tests
use orascout.Base.{
  ◌>>◌, ◌>>=◌, ℕ, ◌*◌, Bool, true, false, not, Option, none, some, List, [], ◌∷◌, ◌++◌,
  if◌then◌else◌, Result, reject_if, ok, err, Bytes, codes, eqb, is_empty,
}
use orascout.Base.Int.{ℤ, pos, ltb_ℤ, is_zero}
use orascout.Strings.{has_prefix, contains, trim_space, trim_prefix, trim_suffix, cut}
use orascout.Paths.{clean}

pub record AuthConfig : Type 0 where
  pub username : Bytes
  pub password : Bytes
  pub token : Bytes

pub record Config : Type 0 where
  pub registry_prefix : Bytes
  pub repos : List Bytes
  pub poll_interval : ℤ
  pub artifacts_dir : Bytes
  pub state_file : Bytes
  pub lock_file : Bytes
  pub auth : AuthConfig
  pub logs_push : Bytes
  pub log_file : Bytes
  pub allowed_target_roots : List Bytes
  pub insecure : Bool

pub record RepoRef : Type 0 where
  pub full_ref : Bytes
  pub name : Bytes
  pub tag : Bytes

pub data ConfigError : Type 0 where
  read_failed parse_failed no_prefix prefix_with_scheme no_repos poll_too_small : ConfigError
  root_not_absolute root_is_slash : ConfigError

-- In nanoseconds.
abbrev pub second : ℕ
second = 1_000_000_000

abbrev or_text : Bytes → Bytes → Bytes
or_text [] standard = standard
or_text (c ∷ s) standard = c ∷ s

-- `(c *Config) applyDefaults()`
unfoldable pub apply_defaults : Config → Config
unfolding codes
apply_defaults c = record c {
  poll_interval = if is_zero c.poll_interval then pos (300 * second) else c.poll_interval;
  artifacts_dir = or_text c.artifacts_dir (codes "/var/lib/orascout/artifacts");
  state_file = or_text c.state_file (codes "/var/lib/orascout/state.json");
  lock_file = or_text c.lock_file (codes "/var/run/orascout.lock");
}

-- The name of the variable that a value refers to.
unfoldable pub variable_name : Bytes → Bytes
variable_name v = trim_suffix (trim_prefix (trim_prefix v (b'$' ∷ [])) (b'{' ∷ [])) (b'}' ∷ [])

-- `os.Getenv` is a parameter.
module _ (getenv : Bytes → Bytes) where
  abbrev expand_trimmed : Bytes → Bytes
  expand_trimmed v = if not (has_prefix v (b'$' ∷ [])) then v else getenv (variable_name v)

  -- `expand(v)`
  unfoldable pub expand : Bytes → Bytes
  expand v = expand_trimmed (trim_space v)

  -- `(c *Config) expandEnv()`
  unfoldable pub expand_env : Config → Config
  expand_env c = record c {
    auth = record {
      username = expand c.auth.username;
      password = expand c.auth.password;
      token = expand c.auth.token;
    };
  }

-- The body of the loop over `AllowedTargetRoots`, which writes the cleaned entry back.
unfoldable pub clean_root : Bytes → Result ConfigError Bytes
clean_root r = do
  let trimmed = trim_space r
  reject_if (not (has_prefix trimmed (b'/' ∷ []))) root_not_absolute
  let cleaned = clean trimmed
  reject_if (eqb cleaned (b'/' ∷ [])) root_is_slash
  ok cleaned

unfoldable pub clean_roots : List Bytes → Result ConfigError (List Bytes)
clean_roots [] = ok []
clean_roots (r ∷ roots) = do cleaned ← clean_root r; rest ← clean_roots roots; ok (cleaned ∷ rest)

abbrev is_nil : List Bytes → Bool
is_nil [] = true
is_nil (r ∷ rs) = false

-- `(c *Config) validate()`, with the configuration that it leaves.
unfoldable pub validate : Config → Result ConfigError Config
validate c = do
  reject_if (is_empty c.registry_prefix) no_prefix
  reject_if (contains c.registry_prefix (b':' ∷ b'/' ∷ b'/' ∷ [])) prefix_with_scheme
  reject_if (is_nil c.repos) no_repos
  reject_if (ltb_ℤ c.poll_interval (pos second)) poll_too_small
  roots ← clean_roots c.allowed_target_roots
  ok (record c { allowed_target_roots = roots })

abbrev read_file : Option Bytes → Result ConfigError Bytes
read_file none = err read_failed
read_file (some raw) = ok raw

abbrev unmarshalled : Option Config → Result ConfigError Config
unmarshalled none = err parse_failed
unmarshalled (some c) = ok c

-- `Load(path)`. The file's content, if it can be read, `yaml.Unmarshal` and the environment are
-- parameters.
unfoldable pub load :
    (Bytes → Bytes) → (Bytes → Option Config) → Option Bytes → Result ConfigError Config
load getenv unmarshal file = do
  raw ← read_file file
  c ← unmarshalled (unmarshal raw)
  validate (expand_env getenv (apply_defaults c))

abbrev or_latest : Bytes → Option (Bytes × Bytes) → Bytes × Bytes
or_latest r none = (r, codes "latest")
or_latest r (some (name, tag)) = (name, tag)

abbrev repo_ref : Bytes → Bytes × Bytes → RepoRef
repo_ref prefix (name, tag) = record {
  name = name;
  tag = tag;
  full_ref = trim_suffix prefix (b'/' ∷ []) ++ (b'/' ∷ (name ++ (b':' ∷ tag)));
}

-- One entry, trimmed.
unfoldable pub parse_repo : Bytes → Bytes → RepoRef
parse_repo prefix r = repo_ref prefix (or_latest r (cut r b':'))

unfoldable pub parse_repos : Bytes → List Bytes → List RepoRef
parse_repos prefix [] = []
parse_repos prefix (r ∷ repos) =
    let rest = parse_repos prefix repos in
    if is_empty (trim_space r) then rest else parse_repo prefix (trim_space r) ∷ rest

-- `(c *Config) ParsedRepos()`
unfoldable pub parsed_repos : Config → List RepoRef
parsed_repos c = parse_repos c.registry_prefix c.repos
