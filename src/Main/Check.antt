-- ===== src/Main/Check.antt =====
-- What the subcommand check does.
use orascout.Base.{
  ap, [], sym, ℕ, Bool, true, not, ◌≡◌, ◌≢◌, refl, subst, ◌⊎◌, inl, inr, Option, none, some, List,
  ◌∷◌, All, Result, ok, err, Bytes, codes, is_empty,
}
use orascout.Paths.{dir}
use orascout.Config.{Config, ConfigError, load}
use orascout.Host.{on_ok, OsResult, Call, call, mkdir_all, open_append, read_file, done, after}
use orascout.Host.Runs.{stop, next, Event, Runs}
use orascout.Host.Ensures.{
  Ensures, Ensures-Runs, Ensures-after, Ensures-if, Ensures-bind, Ensures-imp, OkHas, AnyReply,
  All-AnyReply,
}
use orascout.State.{open_store, Store}
use orascout.State.Program.{open_program}
use orascout.Watcher.{Watcher, new}
use orascout.Watcher.Daemon.{RunError, run_once}
use orascout.Watcher.Observes.{Observes, Anything}
use orascout.Watcher.Observes.DryRun.{run_once-Observes}
use orascout.Main.{
  Flags, Environment, Exit, or_exit, build_logger, once_status, watch, with_config, with_flags,
  cmd_run, main,
}

-- The calls that open the log file and the state file.
abbrev pub Opens : Config → Call → Type 0
Opens cfg (mkdir_all p mode) = p ≡ dir cfg.log_file
Opens cfg (open_append p) = p ≡ cfg.log_file
Opens cfg (read_file p) = p ≡ cfg.state_file
Opens cfg _ = ⊥

-- The calls of a check, once the configuration is known.
abbrev pub Looks : Config → Call → Type 0
Looks cfg c = Opens cfg c ⊎ Observes cfg.lock_file c

abbrev IsStatus : Option ℕ → Type 0
IsStatus x = x ≢ none

status : (n : ℕ) → IsStatus (some n)
status n e = cc e

module _ (env : Environment) where
  module _ (cfg : Config) where
    build_logger-Looks :
        (level : Bytes)
        → Ensures (Looks cfg) AnyReply Anything (build_logger env.is_level cfg.log_file level)
    unfolding build_logger
    build_logger-Looks level =
        Ensures-if (Looks cfg) AnyReply Anything (not (env.is_level level)) _ _ (λ _. tt)
          (λ _.
            Ensures-if (Looks cfg) AnyReply Anything (is_empty cfg.log_file) _ _ (λ _. tt)
              (λ _. (inl refl, λ r _. opened r)))
      where
        opened :
            (r : OsResult (Unit {0}))
            → Ensures
                (Looks cfg)
                AnyReply
                Anything
                (after (done r) (on_ok (λ _. call (open_append cfg.log_file))))
        opened (ok u) = (inl refl, λ _ _. tt)
        opened (err e) = tt

    any_result : {E A : Type 0} (r : Result E A) → OkHas Anything r
    any_result (ok a) = tt
    any_result (err e) = tt

    new-Looks : Ensures (Looks cfg) AnyReply (OkHas (λ w. w.cfg ≡ cfg)) (new env.libraries cfg)
    unfolding new open_program
    new-Looks =
        Ensures-bind (Looks cfg) AnyReply Anything (λ w. w.cfg ≡ cfg)
          (open_program env.libraries.unmarshal cfg.state_file) _
          (inl refl, λ r _. any_result (open_store env.libraries.unmarshal cfg.state_file r))
          (λ _ _. refl)

    once_status-IsStatus :
        (lock : Bytes) (x : Result RunError (Unit {0}) × Store)
        → Ensures (Observes lock) AnyReply IsStatus (once_status env x)
    once_status-IsStatus lock (ok u, s) = status 0
    once_status-IsStatus lock (err e, s) = status 1

    watch-Looks :
        (n fuel : ℕ) (once : Bool) (w : Watcher)
        → w.cfg ≡ cfg
        → Ensures
            (Looks cfg)
            AnyReply
            IsStatus
            (watch env n fuel once (record w { dry_run = true }))
    watch-Looks n fuel once w e =
        Ensures-imp (Observes cfg.lock_file) (Looks cfg) AnyReply IsStatus IsStatus (λ c p. inr p)
          (λ _ q. q) _
          (subst
            (λ x.
              Ensures (Observes x.lock_file) AnyReply IsStatus
                (watch env n fuel once (record w { dry_run = true })))
            e
            (Ensures-after (Observes w.cfg.lock_file) AnyReply (λ x. x.1 ≡ w.store) IsStatus
              (run_once env.libraries fuel (record w { dry_run = true })) (once_status env)
              (run_once-Observes env.libraries fuel (record w { dry_run = true }) refl)
              (λ x _. once_status-IsStatus w.cfg.lock_file x)))

    or_exit-Looks :
        {E A : Type 0} (Q : A → Type 0) (f : A → Exit) (r : Result E A)
        → OkHas Q r
        → ((a : A) → Q a → Ensures (Looks cfg) AnyReply IsStatus (f a))
        → Ensures (Looks cfg) AnyReply IsStatus (or_exit 1 f r)
    or_exit-Looks Q f (ok a) q k = k a q
    or_exit-Looks Q f (err e) q k = status 1

    with_config-Looks :
        (n fuel : ℕ) (flags : Flags)
        → Ensures (Looks cfg) AnyReply IsStatus (with_config env n fuel true flags cfg)
    with_config-Looks n fuel flags =
        Ensures-after (Looks cfg) AnyReply Anything IsStatus
          (build_logger env.is_level cfg.log_file flags.log_level) _
          (build_logger-Looks flags.log_level)
          (λ r _. or_exit-Looks Anything _ r (any_result r) (λ u _.
            Ensures-after (Looks cfg) AnyReply (OkHas (λ w. w.cfg ≡ cfg)) IsStatus
              (new env.libraries cfg) _ new-Looks
              (λ made h.
                or_exit-Looks (λ w. w.cfg ≡ cfg) _ made h (watch-Looks n fuel flags.once))))

  -- The configuration is what the reply to the reading of its file holds.
  abbrev pub IsLoaded : OsResult Bytes → Config → Type 0
  IsLoaded reply cfg =
      (raw : Bytes) × (reply ≡ ok raw) × (load env.getenv env.yaml (some raw) ≡ ok cfg)

  -- What follows the reading of the file: calls by the configuration in it, or nothing.
  abbrev pub Follows : OsResult Bytes → Option ℕ → List Event → Type 0
  Follows reply x rest =
      ((cfg : Config) × IsLoaded reply cfg × All (λ e. Looks cfg e.request) rest)
      ⊎ (((cfg : Config) → ¬ IsLoaded reply cfg) × (rest ≡ []) × (x ≡ some 1))

  -- All that a check does: nothing if its flags are wrong, and else the file that they name is read
  -- first.
  abbrev pub IsCheck : List Bytes → Option ℕ → List Event → Type 0
  IsCheck args x events =
      ((env.parse_flags args ≡ none) × (events ≡ []) × (x ≡ some 2))
      ⊎ ((flags : Flags) × (reply : OsResult Bytes) × (rest : List Event) × (env.parse_flags args
            ≡ some flags)
          × (events ≡ record { request = read_file flags.config; reply = reply } ∷ rest)
          × Follows reply x rest
          × (x ≢ none))

  unloaded :
      (raw : Bytes) (y : ConfigError)
      → load env.getenv env.yaml (some raw) ≡ err y
      → (cfg : Config) → ¬ IsLoaded (ok raw) cfg
  unloaded raw y e cfg (raw', same, loaded) =
      let it : raw ≡ raw' = cc same in
      cc (e, ap (λ t. load env.getenv env.yaml (some t)) it, loaded)

  loaded-Follows :
      (n fuel : ℕ) (flags : Flags) (raw : Bytes) (r : Result ConfigError Config) {x : Option ℕ}
      {events : List Event}
      → load env.getenv env.yaml (some raw) ≡ r
      → Runs x (or_exit 1 (with_config env n fuel true flags) r) events
      → Follows (ok raw) x events × (x ≢ none)
  loaded-Follows n fuel flags raw (ok cfg) {events = events} e runs =
      let (calls, ends) =
        Ensures-Runs (Looks cfg) AnyReply IsStatus (with_config env n fuel true flags cfg)
          (with_config-Looks cfg n fuel flags) runs (All-AnyReply events) in
      (inl (cfg, (raw, refl, e), calls), ends)
  loaded-Follows n fuel flags raw (err y) e (stop same) =
      (inr (unloaded raw y e, refl, sym same), λ gone. cc (same, gone))

  with_flags-IsCheck :
      (n fuel : ℕ) (args : List Bytes) (o : Option Flags) {x : Option ℕ} {events : List Event}
      → env.parse_flags args ≡ o
      → Runs x (with_flags env n fuel true o) events
      → IsCheck args x events
  unfolding load
  with_flags-IsCheck n fuel args none e (stop same) = inl (e, refl, sym same)
  with_flags-IsCheck n fuel args (some flags) e (next (ok raw) run) =
      let (follows, ends) = loaded-Follows n fuel flags raw _ refl run in
      inr (flags, ok raw, _, e, refl, follows, ends)
  with_flags-IsCheck n fuel args (some flags) e (next (err f) (stop same)) =
      inr (
        flags,
        err f,
        [],
        e,
        refl,
        inr ((λ cfg l. cc l.1), refl, sym same),
        λ gone. cc (same, gone),
      )

  -- The subcommand check, with any further arguments and on any host, reads the file that its flags name,
  -- once and first. If a configuration can be loaded from what was read, it then makes only calls by this
  -- configuration: it opens its log file and its state file, takes and releases its lock, asks for
  -- cancellation and reads from the registry. Otherwise it makes no other call and fails. It starts no
  -- process, and neither pulls, pushes, deploys nor records, and it ends with an exit status by itself.
  pub main-IsCheck :
      (n fuel : ℕ) (args : List Bytes) {x : Option ℕ} {events : List Event}
      → Runs x (main env n fuel (codes "check" ∷ args)) events
      → IsCheck args x events
  unfolding main cmd_run codes
  main-IsCheck n fuel args runs = with_flags-IsCheck n fuel args (env.parse_flags args) refl runs
