-- ===== src/Main/Tests.antt =====
-- A check with one repository, cancelled before its cycle.
use orascout.Base.{
  eqb, if◌then◌else◌, ℕ, refl, true, false, Option, none, some, List, [], ◌∷◌, Result, ok, err,
  Bytes, codes,
}
use orascout.Base.Int.{pos}
use orascout.Config.{Config, load}
use orascout.Host.{Failure, not_exist}
use orascout.Host.Runs.{Event, Runs, stop, next}
use orascout.Lockfile.{acquire, release, write_pid}
use orascout.Main.{Environment, cmd_run, main, build_logger}
use orascout.Main.Check.{IsCheck, main-IsCheck}
use orascout.State.{FileShape}
use orascout.State.Program.{open_program}
use orascout.Watcher.{new}
use orascout.Watcher.Daemon.{run_once, rounds}

abbrev cfg : Config
unfolding codes
cfg = record {
  registry_prefix = codes "h/o";
  repos = codes "app" ∷ [];
  poll_interval = pos 1_000_000_000;
  artifacts_dir = codes "/a";
  state_file = codes "/s/j";
  lock_file = codes "/l/k";
  auth = record { username = []; password = []; token = [] };
  logs_push = [];
  log_file = [];
  allowed_target_roots = [];
  insecure = false;
}

abbrev env : Environment
unfolding codes
env = record {
  libraries = record {
    parse_duration = λ s. none;
    decode_manifest = λ body. none;
    marshal = λ shape. some (codes "json");
    unmarshal = λ raw shape. some shape;
    pid = 42;
  };
  parse_flags =
      λ args. some (record { config = codes "c.yaml"; once = false; log_level = codes "info" });
  is_level = λ level. true;
  getenv = λ name. [];
  yaml = λ raw. if eqb raw (codes "repos") then some cfg else none;
}

abbrev reply_ok : Result Failure (Unit {0})
reply_ok = ok tt

abbrev absent : Result Failure Bytes
absent = err not_exist

check_run : (x : Option ℕ) × (es : List Event) × Runs x (main env 1 1 (codes "check" ∷ [])) es
unfolding codes main cmd_run build_logger new open_program run_once rounds acquire write_pid release
    load orascout.Config.validate orascout.Config.expand_env orascout.Config.apply_defaults
    orascout.Strings.contains orascout.Config.clean_roots orascout.State.open_store
    orascout.Config.parsed_repos orascout.Config.parse_repos orascout.Strings.trim_space
check_run = (
  _,
  _,
  next (ok (codes "repos")) (
      next absent (
        next reply_ok
          (next reply_ok (next reply_ok (next true (next reply_ok (next reply_ok (stop refl)))))))),
)

main-IsCheck_example : IsCheck env [] check_run.0 check_run.1
main-IsCheck_example = main-IsCheck env 1 1 [] check_run.2
