-- ===== src/Main.antt =====
-- cmd/orascout/main.go: the subcommands and their exit status. Usage texts and log lines are left out.
-- Package flag, the names of log levels, yaml and the environment are arguments.
pub mod Check
pub mod Tests
use orascout.Base.{
  ℕ, Bool, true, false, not, ◌||◌, Option, none, some, List, [], ◌∷◌, if◌then◌else◌, any, Result,
  ok, err, Bytes, codes, eqb, is_empty,
}
use orascout.Config.{Config, ConfigError, load}
use orascout.Paths.{dir}
use orascout.Host.{
  Failure, OsResult, Act, done, after, call, ◌>>◌, mkdir_all, open_append, read_file,
}
use orascout.State.{Store}
use orascout.Watcher.{Libraries, Watcher, new}
use orascout.Watcher.Daemon.{RunError, run_once, run_daemon}

-- The flags of `cmdRun`.
pub record Flags : Type 0 where
  pub config : Bytes
  pub once : Bool
  pub log_level : Bytes

pub record Environment : Type 0 where
  pub libraries : Libraries
  pub parse_flags : List Bytes → Option Flags
  pub is_level : Bytes → Bool
  pub getenv : Bytes → Bytes
  pub yaml : Bytes → Option Config

-- An exit status; none if the ticks of the daemon are used up.
abbrev pub Exit : Type 0
Exit = Act (Option ℕ)

abbrev pub exit : ℕ → Exit
exit status = done (some status)

-- `if err != nil { …; return status }`
abbrev pub or_exit : {E A : Type 0} → ℕ → (A → Exit) → Result E A → Exit
or_exit status f (ok a) = f a
or_exit status f (err e) = exit status

-- `buildLogger(logFile, level)`: whether it succeeds.
unfoldable pub build_logger : (Bytes → Bool) → Bytes → Bytes → Act (OsResult (Unit {0}))
build_logger is_level log_file level =
    if not (is_level level)
    then done (err Failure.failed)
    else if is_empty log_file
    then done (ok tt)
    else (do call (mkdir_all (dir log_file) 493); call (open_append log_file))

abbrev pub content : OsResult Bytes → Option Bytes
content (ok raw) = some raw
content (err e) = none

module _ (env : Environment) where
  abbrev pub load_program : Bytes → Act (Result ConfigError Config)
  load_program path =
      after (call (read_file path)) (λ r. done (load env.getenv env.yaml (content r)))

  abbrev pub once_status : Result RunError (Unit {0}) × Store → Exit
  once_status (ok u, s) = exit 0
  once_status (err e, s) = exit 1

  -- The daemon returns only `context.Canceled`, which is a clean stop.
  abbrev pub daemon_status : Option (Unit {0}) × Store → Exit
  daemon_status (none, s) = done none
  daemon_status (some u, s) = exit 0

  abbrev pub watch : ℕ → ℕ → Bool → Watcher → Exit
  watch n fuel once w =
      if w.dry_run || once
      then after (run_once env.libraries fuel w) once_status
      else after (run_daemon env.libraries n fuel w) daemon_status

  -- From the configuration on. The logger is built before the watcher.
  abbrev pub with_config : ℕ → ℕ → Bool → Flags → Config → Exit
  with_config n fuel dry_run flags cfg =
      after (build_logger env.is_level cfg.log_file flags.log_level) (
        or_exit 1 (λ u.
          after (new env.libraries cfg)
            (or_exit 1 (λ w. watch n fuel flags.once (record w { dry_run = dry_run })))))

  abbrev pub with_flags : ℕ → ℕ → Bool → Option Flags → Exit
  with_flags n fuel dry_run none = exit 2
  with_flags n fuel dry_run (some flags) =
      after (load_program flags.config) (or_exit 1 (with_config n fuel dry_run flags))

  -- `cmdRun(args, dryRun)`
  unfoldable pub cmd_run : ℕ → ℕ → List Bytes → Bool → Exit
  unfolding build_logger
  cmd_run n fuel args dry_run = with_flags n fuel dry_run (env.parse_flags args)

  -- The subcommand, by its name.
  abbrev pub subcommand : ℕ → ℕ → Bytes → List Bytes → Exit
  subcommand n fuel name args =
      if eqb name (codes "run")
      then cmd_run n fuel args false
      else if eqb name (codes "check")
      then cmd_run n fuel args true
      else if any (eqb name) (codes "version" ∷ codes "-v" ∷ codes "--version" ∷ [])
      then exit 0
      else if any (eqb name) (codes "help" ∷ codes "-h" ∷ codes "--help" ∷ [])
      then exit 0
      else exit 2

  -- `main`, from the arguments behind the program's name.
  unfoldable pub main : ℕ → ℕ → List Bytes → Exit
  main n fuel [] = exit 2
  main n fuel (name ∷ args) = subcommand n fuel name args
