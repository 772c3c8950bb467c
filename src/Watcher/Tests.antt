-- ===== src/Watcher/Tests.antt =====
-- A dry round, a deploy of a hook, and a cycle that finds nothing new.
use orascout.Base.{
  ◌≡◌, refl, ◌⊎◌, Bool, true, false, none, some, List, [], ◌∷◌, All, Result, ok, err, Bytes, codes,
}
use orascout.Base.Int.{pos}
use orascout.Strings.{trim_space, trim_suffix, cut, index_suc, last_index_suc}
use orascout.Paths.{join}
use orascout.Annotations.{RawAnnotations, parse}
use orascout.Config.{load, Config, RepoRef, parsed_repos, parse_repos, parse_repo}
use orascout.State.{Entry, Store, get}
use orascout.State.Program.{set_program, save_program}
use orascout.Host.{Failure}
use orascout.Host.Runs.{Event, Runs, stop, next}
use orascout.Registry.{split_ref}
use orascout.Registry.Client.{repo_and_tag, resolve_digest, fetch_annotations, pull}
use orascout.Deploy.Run.{run, run_hook}
use orascout.Lockfile.{locked, LockError, acquire, release, write_pid}
use orascout.Strconv.{print_int}
use orascout.Watcher.{Libraries, Watcher, CycleError, plan, deploy_change, cycle_one}
use orascout.Watcher.Daemon.{RunError, rounds, run_once}
use orascout.Watcher.Observes.{Observes}
use orascout.Watcher.Observes.DryRun.{NotDeployed, run_once-dry}
use orascout.Watcher.Cycle.{Outcome, cycle_one-recorded}
use orascout.Watcher.Settled.{IsResolving, cycle_one-settled}
use orascout.Watcher.Served.{IsServed, run_once-IsServed}
use orascout.Watcher.Contained.{IsConfined, cycle_one-contained}
use orascout.Watcher.Bracket.{IsRefused, IsBracketed, run_once-bracket}

abbrev manifest : RawAnnotations
unfolding codes
manifest =
    (codes "dev.orascout.v1.type", codes "hook-only")
    ∷ (codes "dev.orascout.v1.hook.pre", codes "go.sh")
    ∷ []

abbrev libraries : Libraries
unfolding codes
libraries = record {
  parse_duration = λ s. none;
  decode_manifest = λ body. some (some manifest);
  marshal = λ shape. some (codes "json");
  unmarshal = λ raw shape. some shape;
  pid = 42;
}

abbrev cfg : Config
unfolding codes
cfg = record {
  registry_prefix = codes "h/o";
  repos = codes "app" ∷ [];
  poll_interval = pos 1_000_000_000;
  artifacts_dir = codes "/a";
  state_file = codes "/s/j";
  lock_file = codes "/l/k";
  auth = record { username = []; password = []; token = [] };
  logs_push = [];
  log_file = [];
  allowed_target_roots = [];
  insecure = false;
}

abbrev app : RepoRef
unfolding codes
app = record { full_ref = codes "h/o/app:latest"; name = codes "app"; tag = codes "latest" }

abbrev entry : Entry
unfolding codes
entry = record { digest = codes "d1"; deployed_at = pos 5; deploy_type = codes "hook-only" }

abbrev watcher : List (Bytes × Entry) → Bool → Watcher
watcher entries dry = record {
  cfg = cfg;
  client = record { auth = record { username = []; password = []; token = [] }; insecure = false };
  store = record {
    path = cfg.state_file;
    shape = record { schema = pos 1; entries = some entries };
  };
  dry_run = dry;
}

abbrev digest : Bytes
unfolding codes
digest = codes "d1"

abbrev reply_ok : Result Failure (Unit {0})
reply_ok = ok tt

-- A cycle of a repository whose digest is recorded.
settled_run :
    (es : List Event) × Runs
      (ok false, (watcher ((app.full_ref, entry) ∷ []) false).store)
      (cycle_one libraries 1 (watcher ((app.full_ref, entry) ∷ []) false) app)
      es
unfolding codes cycle_one plan resolve_digest repo_and_tag split_ref get trim_space index_suc
    last_index_suc
settled_run = (_, next reply_ok (next (ok digest) (stop refl)))

cycle_one-settled_example :
    All (λ e. IsResolving e.request) settled_run.0
    × NotDeployed
        (watcher ((app.full_ref, entry) ∷ []) false).store
        (ok false, (watcher ((app.full_ref, entry) ∷ []) false).store)
unfolding settled_run get codes
cycle_one-settled_example =
    cycle_one-settled digest libraries (watcher ((app.full_ref, entry) ∷ []) false) app refl 1
      settled_run.1 (tt, (λ d e. cc e, tt))

-- A dry round.
dry_run_of :
    (x : Result RunError (Unit {0}) × Store) × (es : List Event) × Runs x
      (run_once libraries 1 (watcher [] true))
      es
unfolding codes run_once acquire write_pid rounds cycle_one plan resolve_digest fetch_annotations
    repo_and_tag split_ref get trim_space index_suc last_index_suc parsed_repos parse release
    print_int parse_repos parse_repo trim_suffix cut orascout.Annotations.parse_type
    orascout.Annotations.value orascout.Annotations.optional orascout.Annotations.known_manager
    orascout.Annotations.service_manager_of orascout.Annotations.validate
dry_run_of = (
  _,
  _,
  next reply_ok (
      next reply_ok (
        next reply_ok (
          next false (
            next reply_ok (
              next (ok digest) (
                next reply_ok (
                  next reply_ok
                    (next (ok (codes "{}")) (next reply_ok (next reply_ok (stop refl))))))))))),
)

run_once-dry_example :
    All (λ e. Observes (codes "/l/k") e.request) dry_run_of.1
    × (dry_run_of.0.1 ≡ (watcher [] true).store)
unfolding codes cfg
run_once-dry_example = run_once-dry libraries 1 (watcher [] true) refl dry_run_of.2

-- A cycle that deploys.
deploy_of :
    (x : Result CycleError Bool × Store) × (es : List Event) × Runs x
      (cycle_one libraries 1 (watcher [] false) app)
      es
unfolding codes cycle_one plan resolve_digest fetch_annotations deploy_change repo_and_tag split_ref
    get trim_space index_suc last_index_suc parse set_program save_program pull run
    orascout.Annotations.parse_type orascout.Annotations.value orascout.Annotations.optional
    orascout.Annotations.known_manager orascout.Annotations.service_manager_of
    orascout.Annotations.validate orascout.Deploy.Safety.validate_request run_hook
    orascout.Deploy.Safety.secure_path_join join orascout.Deploy.Strategies.dispatch
deploy_of = (
  _,
  _,
  next reply_ok (
      next (ok digest) (
        next reply_ok (
          next reply_ok (
            next (ok (codes "{}")) (
              next reply_ok (
                next reply_ok (
                  next reply_ok (
                    next reply_ok (
                      next reply_ok (
                        next reply_ok (
                          next true (
                            next (pos 5) (
                              next reply_ok
                                (next reply_ok (next reply_ok (stop refl)))))))))))))))),
)

cycle_one-recorded_example : Outcome libraries 1 (watcher [] false) app deploy_of.1 deploy_of.0
cycle_one-recorded_example = cycle_one-recorded libraries 1 (watcher [] false) app deploy_of.2

run_once-bracket_example :
    ((e : LockError) × Runs
        (err e)
        (acquire libraries.pid (watcher [] true).cfg.lock_file)
        dry_run_of.1
      × IsRefused libraries 1 (watcher [] true) e dry_run_of.0)
    ⊎ IsBracketed libraries 1 (watcher [] true) dry_run_of.1
run_once-bracket_example = run_once-bracket libraries 1 (watcher [] true) dry_run_of.2

run_once-IsServed_example :
    Runs (err locked) (acquire libraries.pid (watcher [] true).cfg.lock_file) dry_run_of.1
    ⊎ All (IsServed libraries 1 (watcher [] true) dry_run_of.1) (parsed_repos (watcher [] true).cfg)
unfolding dry_run_of
run_once-IsServed_example = run_once-IsServed libraries 1 (watcher [] true) dry_run_of.2

loaded_cfg : load (λ name. []) (λ raw. some cfg) (some (codes "repos")) ≡ ok (watcher [] false).cfg
unfolding codes cfg load orascout.Config.validate orascout.Config.expand_env
    orascout.Config.apply_defaults orascout.Strings.contains orascout.Config.clean_roots trim_space
    orascout.Config.expand
loaded_cfg = refl

cycle_one-contained_example : IsConfined libraries (watcher [] false) app deploy_of.1
unfolding deploy_of
cycle_one-contained_example =
    cycle_one-contained (λ name. []) (λ raw. some cfg) (some (codes "repos")) libraries 1
      (watcher [] false) app loaded_cfg deploy_of.2
      (
        tt,
        (
          tt,
          (tt, (tt, (tt, (tt, (tt, (tt, (tt, (tt, (tt, (tt, (tt, (tt, (tt, (tt, tt)))))))))))))),
        ),
      )
