-- ===== src/Config/Tests.antt =====
-- Configurations, and the theorem at one that is accepted.
use orascout.Base.{
  ◌≡◌, refl, false, Option, some, [], ◌∷◌, if◌then◌else◌, Result, ok, Bytes, codes, eqb,
}
use orascout.Base.Int.{pos}
use orascout.Strings.{has_prefix, contains, trim_space, trim_suffix, cut, trim_prefix}
use orascout.Paths.{clean}
use orascout.Config.{
  Config, ConfigError, load, apply_defaults, expand_env, expand, variable_name, validate,
  clean_root, clean_roots, parsed_repos, parse_repos, parse_repo,
}
use orascout.Config.Valid.{IsValid, HasPaths, load-IsValid}

abbrev sample : Config
unfolding codes
sample = record {
  registry_prefix = codes "docker.io/org/";
  repos = codes "app" ∷ codes " " ∷ codes " web:v2" ∷ [];
  poll_interval = pos 0;
  artifacts_dir = [];
  state_file = codes "/s.json";
  lock_file = [];
  auth = record { username = codes "u"; password = codes " ${PW}"; token = [] };
  logs_push = [];
  log_file = [];
  allowed_target_roots = codes " /srv/app/ " ∷ [];
  insecure = false;
}

abbrev env : Bytes → Bytes
unfolding codes
env name = if eqb name (codes "PW") then codes "secret" else []

yaml : Bytes → Option Config
yaml raw = some sample

loads : Option Bytes → Result ConfigError Config
unfolding load yaml apply_defaults expand_env expand variable_name validate clean_root clean_roots
    has_prefix contains trim_space trim_suffix trim_prefix clean codes
loads = load env yaml

abbrev loaded : Config
unfolding codes
loaded = record sample {
  poll_interval = pos 300_000_000_000;
  artifacts_dir = codes "/var/lib/orascout/artifacts";
  lock_file = codes "/var/run/orascout.lock";
  auth = record { username = codes "u"; password = codes "secret"; token = [] };
  allowed_target_roots = codes "/srv/app" ∷ [];
}

load_sample : loads (some []) ≡ ok loaded
unfolding loads
load_sample = refl

repos_sample :
    parsed_repos loaded
    ≡ record {
      full_ref = codes "docker.io/org/app:latest";
      name = codes "app";
      tag = codes "latest";
    }
      ∷ record { full_ref = codes "docker.io/org/web:v2"; name = codes "web"; tag = codes "v2" }
      ∷ []
unfolding parsed_repos parse_repos parse_repo trim_space trim_suffix cut codes
repos_sample = refl

load-IsValid_example : IsValid loaded × HasPaths loaded
unfolding loads
load-IsValid_example = load-IsValid env yaml (some []) load_sample
