-- ===== src/Watcher/Daemon.antt =====
-- internal/watcher/watcher.go: a round over all repositories under the lock, and the daemon.
use orascout.Base.{
  ℕ, zero, suc, Bool, true, false, not, ◌&&◌, Option, none, some, List, [], ◌∷◌, ◌++◌, ltb,
  if◌then◌else◌, Result, ok, err, Bytes, codes, is_empty,
}
use orascout.Strings.{trim_suffix, contains}
use orascout.Config.{Config, RepoRef, parsed_repos}
use orascout.Host.{Act, done, ask, after, poll, tick}
use orascout.Registry.Client.{push_file}
use orascout.State.{Store}
use orascout.Lockfile.{LockError, locked, Lock, acquire, release}
use orascout.Watcher.{Libraries, Watcher, CycleError, cycle_one}

-- Whether the cycle was cancelled, how many repositories were deployed, and the store.
pub record Round : Type 0 where
  pub cancelled : Bool
  pub deployed : ℕ
  pub store : Store

pub data RunError : Type 0 where
  acquire_failed : LockError → RunError
  cancelled : RunError

-- The target that logs are pushed to.
unfoldable pub logs_target : Config → Bytes
logs_target cfg =
    let target = trim_suffix cfg.registry_prefix (b'/' ∷ []) ++ b'/' ∷ cfg.logs_push in
    if contains cfg.logs_push (b':' ∷ []) then target else target ++ codes ":latest"

-- `pushLogs(ctx)`, whose failure is only logged.
unfoldable pub push_logs : Watcher → Act (Unit {0})
push_logs w =
    if is_empty w.cfg.log_file
    then done tt
    else after (push_file w.client (logs_target w.cfg) w.cfg.log_file (codes "text/plain"))
        (λ r. done tt)

-- An error of one repository is logged, and the next one is tried.
abbrev pub counted : ℕ → Result CycleError Bool → ℕ
counted n (ok true) = suc n
counted n _ = n

abbrev pub wants_logs : Watcher → ℕ → Bool
wants_logs w n = ltb 0 n && not (is_empty w.cfg.logs_push)

-- The end of `RunOnce` before its lock is released.
abbrev pub finished : Watcher → Round → Act (Result RunError (Unit {0}) × Store)
finished w x =
    if x.cancelled
    then done (err RunError.cancelled, x.store)
    else if wants_logs w x.deployed
    then after (push_logs w) (λ _. done (ok tt, x.store))
    else done (ok tt, x.store)

-- The deferred release, whose error is ignored.
abbrev pub released :
    Lock → Result RunError (Unit {0}) × Store → Act (Result RunError (Unit {0}) × Store)
released lock x = after (release lock) (λ _. done x)

-- Contention is no error.
abbrev pub refusal : LockError → Result RunError (Unit {0})
refusal locked = ok tt
refusal e = err (acquire_failed e)

module _ (h : Libraries) where
  -- The loop of `RunOnce` over the repositories.
  unfoldable pub rounds : ℕ → Watcher → List RepoRef → ℕ → Act Round
  rounds fuel w [] n = done (record { cancelled = false; deployed = n; store = w.store })
  rounds fuel w (ref ∷ refs) n = ask poll (λ stopped.
      if stopped
      then done (record { cancelled = true; deployed = n; store = w.store })
      else after (cycle_one h fuel w ref)
          (λ x. rounds fuel (record w { store = x.1 }) refs (counted n x.0)))

  abbrev pub under_lock :
      ℕ → Watcher → Result LockError Lock → Act (Result RunError (Unit {0}) × Store)
  under_lock fuel w (err e) = done (refusal e, w.store)
  under_lock fuel w (ok lock) =
      after (after (rounds fuel w (parsed_repos w.cfg) 0) (finished w)) (released lock)

  -- `RunOnce(ctx)`
  unfoldable pub run_once : ℕ → Watcher → Act (Result RunError (Unit {0}) × Store)
  run_once fuel w = after (acquire h.pid w.cfg.lock_file) (under_lock fuel w)

  -- The loop of `Run`, for so many ticks; `none` says that they are used up. An error of a cycle is
  -- logged.
  unfoldable pub ticks : ℕ → ℕ → Watcher → Act (Option (Unit {0}) × Store)
  ticks zero fuel w = done (none, w.store)
  ticks (suc n) fuel w = ask (tick w.cfg.poll_interval) (λ stopped.
      if stopped
      then done (some tt, w.store)
      else after (run_once fuel w) (λ x. ticks n fuel (record w { store = x.1 })))

  -- `Run(ctx)`, which ends only by cancellation.
  unfoldable pub run_daemon : ℕ → ℕ → Watcher → Act (Option (Unit {0}) × Store)
  run_daemon n fuel w = after (run_once fuel w) (λ x. ticks n fuel (record w { store = x.1 }))
