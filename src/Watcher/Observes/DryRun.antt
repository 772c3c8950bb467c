-- ===== src/Watcher/Observes/DryRun.antt =====
-- A cycle of a dry run deploys nothing, writes no state and pushes no logs.
use orascout.Base.{
  ℕ, ◌≡◌, refl, ◌∙◌, ◌≢◌, Bool, true, false, Option, none, some, List, [], ◌∷◌, arith, All, Result,
  ok, err, Bytes, eqb,
}
use orascout.Annotations.{Spec, parse}
use orascout.Config.{RepoRef, parsed_repos}
use orascout.State.{Entry, Store, get}
use orascout.Host.{Act, done, after, ◌>>=◌}
use orascout.Host.Runs.{Event, Runs}
use orascout.Host.Ensures.{
  All-AnyReply, AnyReply, Ensures, Ensures-after, Ensures-if, Ensures-imp, Ensures-bind,
  Ensures-Runs, OkHas,
}
use orascout.Registry.Client.{resolve_digest, fetch_annotations}
use orascout.Lockfile.{LockError, Lock, acquire, release}
use orascout.Watcher.{
  Libraries, Watcher, CycleError, Change, resolve_failed, fetch_failed, bad_annotations, wrapped,
  check, digest_of, planned, plan, deploy_plan, persist, cycle_one,
}
use orascout.Watcher.Daemon.{
  Round, RunError, counted, wants_logs, finished, released, rounds, under_lock, run_once,
}
use orascout.Watcher.Observes.{
  Observes, Anything, done-Observes, resolve_digest-Observes, fetch_annotations-Observes,
}
use orascout.Watcher.Observes.Locking.{IsHeld, acquire-Observes, release-Observes}

-- The result of a cycle that deployed nothing.
abbrev pub NotDeployed : Store → Result CycleError Bool × Store → Type 0
NotDeployed s x = (x.0 ≢ ok true) × (x.1 ≡ s)

-- A round that deployed nothing.
abbrev IsIdle : ℕ → Store → Round → Type 0
IsIdle n s x = (x.deployed ≡ n) × (x.store ≡ s)

module _ (lock : Bytes) where
  check-Observes :
      {E A : Type 0} (f : E → CycleError) (m : Act (Result E A))
      → Ensures (Observes lock) AnyReply (OkHas Anything) m
      → Ensures (Observes lock) AnyReply (OkHas Anything) (check f m)
  check-Observes {E} {A} f m h =
      Ensures-after (Observes lock) AnyReply (OkHas Anything) (OkHas Anything) m
        (λ r. done (wrapped f r)) h each
    where
      each : (r : Result E A) → OkHas Anything r → OkHas Anything (wrapped f r)
      each (ok a) q = tt
      each (err e) q = tt

  module _ (h : Libraries) where
    planned-dry :
        (w : Watcher) (digest prev : Bytes) (spec : Spec)
        → w.dry_run ≡ true
        → planned h w digest prev spec ≡ none
    planned-dry w digest prev spec dry = rw dry refl

    plan-Observes :
        (w : Watcher) (ref : RepoRef)
        → w.dry_run ≡ true
        → Ensures (Observes lock) AnyReply (OkHas (λ o. o ≡ none)) (plan h w ref)
    unfolding plan
    plan-Observes w ref dry =
        Ensures-bind (Observes lock) AnyReply Anything (λ o. o ≡ none)
          (check resolve_failed (resolve_digest w.client ref.full_ref)) _
          (check-Observes resolve_failed (resolve_digest w.client ref.full_ref)
            (resolve_digest-Observes lock w.client ref.full_ref))
          (λ digest _.
            let prev = digest_of (get w.store ref.full_ref) in
            Ensures-if (Observes lock) AnyReply (OkHas (λ o. o ≡ none)) (eqb digest prev) _ _
              (λ _. refl)
              (λ _.
                Ensures-bind (Observes lock) AnyReply Anything (λ o. o ≡ none)
                  (check fetch_failed (fetch_annotations h.decode_manifest w.client ref.full_ref)) _
                  (check-Observes fetch_failed
                    (fetch_annotations h.decode_manifest w.client ref.full_ref)
                    (fetch_annotations-Observes lock h.decode_manifest w.client ref.full_ref))
                  (λ raw _.
                    Ensures-bind (Observes lock) AnyReply Anything (λ o. o ≡ none)
                      (check bad_annotations (done (parse h.parse_duration raw))) _
                      (check-Observes bad_annotations (done (parse h.parse_duration raw))
                        (done-Observes lock (parse h.parse_duration raw)))
                      (λ spec _. planned-dry w digest prev spec dry))))

    deploy_plan-none :
        (fuel : ℕ) (w : Watcher) (ref : RepoRef) (o : Option Change)
        → o ≡ none
        → Ensures (Observes lock) AnyReply (OkHas (λ x. x ≡ none)) (deploy_plan h fuel w ref o)
    deploy_plan-none fuel w ref none e = refl
    deploy_plan-none fuel w ref (some c) e = cc e

    cycle_one-Observes :
        (fuel : ℕ) (w : Watcher) (ref : RepoRef)
        → w.dry_run ≡ true
        → Ensures (Observes lock) AnyReply (NotDeployed w.store) (cycle_one h fuel w ref)
    unfolding cycle_one
    cycle_one-Observes fuel w ref dry =
        Ensures-after (Observes lock) AnyReply (OkHas (λ x. x ≡ none)) (NotDeployed w.store)
          (plan h w ref >>= deploy_plan h fuel w ref) (persist h w ref)
          (Ensures-bind (Observes lock) AnyReply (λ o. o ≡ none) (λ x. x ≡ none) (plan h w ref)
            (deploy_plan h fuel w ref) (plan-Observes w ref dry) (deploy_plan-none fuel w ref))
          kept
      where
        kept :
            (r : Result CycleError (Option Entry))
            → OkHas (λ x. x ≡ none) r
            → Ensures (Observes lock) AnyReply (NotDeployed w.store) (persist h w ref r)
        kept (ok none) e = ((λ p. cc p), refl)
        kept (ok (some x)) e = cc e
        kept (err x) e = ((λ p. cc p), refl)

    counted-same : (n : ℕ) (r : Result CycleError Bool) → r ≢ ok true → counted n r ≡ n
    counted-same n (ok true) ne = absurd (ne refl)
    counted-same n (ok false) ne = refl
    counted-same n (err e) ne = refl

    rounds-Observes :
        (fuel : ℕ) (w : Watcher) (refs : List RepoRef) (n : ℕ)
        → w.dry_run ≡ true
        → Ensures (Observes lock) AnyReply (IsIdle n w.store) (rounds h fuel w refs n)
    unfolding rounds
    rounds-Observes fuel w [] n dry = (refl, refl)
    rounds-Observes fuel w (ref ∷ refs) n dry = (
      tt,
      λ stopped _.
          Ensures-if (Observes lock) AnyReply (IsIdle n w.store) stopped _ _ (λ _. (refl, refl))
            (λ _.
              Ensures-after (Observes lock) AnyReply (NotDeployed w.store) (IsIdle n w.store)
                (cycle_one h fuel w ref) _ (cycle_one-Observes fuel w ref dry)
                (λ x q.
                  Ensures-imp (Observes lock) (Observes lock) AnyReply (IsIdle (counted n x.0) x.1)
                    (IsIdle n w.store) (λ c p. p) (λ y i. (i.0 ∙ counted-same n x.0 q.0, i.1 ∙ q.1))
                    _ (rounds-Observes fuel (record w { store = x.1 }) refs (counted n x.0) dry))),
    )

    no_logs : (w : Watcher) (n : ℕ) → n ≡ 0 → wants_logs w n ≡ true → ⊥
    no_logs w n e l = ground arith

    finished-idle :
        (w : Watcher) (x : Round)
        → IsIdle 0 w.store x
        → Ensures (Observes lock) AnyReply (λ y. y.1 ≡ w.store) (finished w x)
    finished-idle w x i =
        Ensures-if (Observes lock) AnyReply (λ y. y.1 ≡ w.store) x.cancelled _ _ (λ _. i.1)
          (λ _.
            Ensures-if (Observes lock) AnyReply (λ y. y.1 ≡ w.store) (wants_logs w x.deployed) _ _
              (λ e. absurd (no_logs w x.deployed i.0 e)) (λ _. i.1))

module _ (h : Libraries) (fuel : ℕ) (w : Watcher) (dry : w.dry_run ≡ true) where
  abbrev Unchanged : Result RunError (Unit {0}) × Store → Type 0
  Unchanged x = x.1 ≡ w.store

  released-Observes :
      (lock : Lock) (x : Result RunError (Unit {0}) × Store)
      → lock.path ≡ w.cfg.lock_file
      → Unchanged x
      → Ensures (Observes w.cfg.lock_file) AnyReply Unchanged (released lock x)
  released-Observes lock x e u =
      Ensures-after (Observes w.cfg.lock_file) AnyReply Anything Unchanged (release lock)
        (λ _. done x) (release-Observes w.cfg.lock_file lock e) (λ _ _. u)

  under_lock-Observes :
      (r : Result LockError Lock)
      → OkHas (IsHeld w.cfg.lock_file) r
      → Ensures (Observes w.cfg.lock_file) AnyReply Unchanged (under_lock h fuel w r)
  under_lock-Observes (ok lock) held =
      let P = Observes w.cfg.lock_file in
      Ensures-after P AnyReply Unchanged Unchanged
        (after (rounds h fuel w (parsed_repos w.cfg) 0) (finished w)) (released lock)
        (Ensures-after P AnyReply (IsIdle 0 w.store) Unchanged
          (rounds h fuel w (parsed_repos w.cfg) 0) (finished w)
          (rounds-Observes w.cfg.lock_file h fuel w (parsed_repos w.cfg) 0 dry)
          (finished-idle w.cfg.lock_file h w))
        (λ x u. released-Observes lock x held.0 u)
  under_lock-Observes (err e) held = refl

  pub run_once-Observes : Ensures (Observes w.cfg.lock_file) AnyReply Unchanged (run_once h fuel w)
  unfolding run_once
  run_once-Observes =
      Ensures-after (Observes w.cfg.lock_file) AnyReply (OkHas (IsHeld w.cfg.lock_file)) Unchanged
        (acquire h.pid w.cfg.lock_file) (under_lock h fuel w)
        (acquire-Observes w.cfg.lock_file h.pid) under_lock-Observes

  -- A round of a dry run, on any host: all it does is to take and release
  -- the lock (in the lock file and the directory of it), to ask for cancellation and to read from the
  -- registry. No process is started, nothing is pulled, pushed or deployed, and no other file is written
  -- or removed. The store is the same afterwards.
  pub run_once-dry :
      {x : Result RunError (Unit {0}) × Store} {events : List Event}
      → Runs x (run_once h fuel w) events
      → All (λ e. Observes w.cfg.lock_file e.request) events × (x.1 ≡ w.store)
  run_once-dry {events = events} runs =
      Ensures-Runs (Observes w.cfg.lock_file) AnyReply Unchanged (run_once h fuel w)
        run_once-Observes runs (All-AnyReply events)
