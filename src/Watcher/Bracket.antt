-- ===== src/Watcher/Bracket.antt =====
-- The lock around a round.
use orascout.Base.{
  ◌≢◌, ℕ, ◌≡◌, refl, sym, ap, ◌∙◌, subst, ◌⊎◌, inl, inr, false, List, [], ◌∷◌, append-nil, ◌++◌,
  Result, ok, err, Bytes,
}
use orascout.Config.{parsed_repos}
use orascout.State.{Store}
use orascout.Host.{done, after, call, close, remove}
use orascout.Host.Runs.{requests, Event, Runs, stop, next}
use orascout.Host.Splits.{Runs-Split, done_runs, if_runs}
use orascout.Host.Ensures.{Ensures-Runs, OkHas, AnyReply, All-AnyReply}
use orascout.Lockfile.{
  LockError, locked, mkdir_failed, open_failed, read_failed, remove_failed, reopen_failed,
  write_failed, Lock, acquire, release, removed,
}
use orascout.Watcher.{Libraries, Watcher}
use orascout.Watcher.Daemon.{
  refusal, RunError, acquire_failed, rounds, finished, released, under_lock, run_once,
}
use orascout.Watcher.Observes.{Observes}
use orascout.Watcher.Observes.Locking.{IsHeld, acquire-Observes}

freed_requests :
    (l : Lock) {x : Result LockError (Unit {0}) × Lock} {es : List Event}
    → Runs x
        (after (call (close l.path)) (λ _.
          after
            (call (remove l.path))
            (λ r. done (removed r, record { path = l.path; is_open = false }))))
        es
    → requests es ≡ close l.path ∷ remove l.path ∷ []
freed_requests l (next u (next v (stop e))) = refl

-- Releasing a held lock closes and removes its file.
release-requests :
    (path : Bytes) (l : Lock) {x : Result LockError (Unit {0}) × Lock} {es : List Event}
    → IsHeld path l
    → Runs x (release l) es
    → requests es ≡ close path ∷ remove path ∷ []
unfolding release
release-requests path l held runs = elim (if_runs l.is_open _ _ runs) [
  | inl (open_now, r) ↦ freed_requests l r ∙ ap (λ p. close p ∷ remove p ∷ []) held.0
  | inr (shut, r) ↦ cc (shut, held.1)
]

module _ (h : Libraries) (fuel : ℕ) (w : Watcher) where
  -- How a round ends that did not take the lock: well if another process holds it, else with the error.
  -- The store is as before.
  pub record IsRefused (e : LockError) (x : Result RunError (Unit {0}) × Store) : Type 0 where
    pub contended : e ≡ locked → x.0 ≡ ok tt
    pub other : e ≢ locked → x.0 ≡ err (acquire_failed e)
    pub store : x.1 ≡ w.store

  refusal-IsRefused : (e : LockError) → IsRefused e (refusal e, w.store)
  refusal-IsRefused locked = record {
    contended = λ _. refl;
    other = λ n. absurd (n refl);
    store = refl;
  }
  refusal-IsRefused mkdir_failed = record {
    contended = λ same. cc same;
    other = λ _. refl;
    store = refl;
  }
  refusal-IsRefused open_failed = record {
    contended = λ same. cc same;
    other = λ _. refl;
    store = refl;
  }
  refusal-IsRefused read_failed = record {
    contended = λ same. cc same;
    other = λ _. refl;
    store = refl;
  }
  refusal-IsRefused remove_failed = record {
    contended = λ same. cc same;
    other = λ _. refl;
    store = refl;
  }
  refusal-IsRefused reopen_failed = record {
    contended = λ same. cc same;
    other = λ _. refl;
    store = refl;
  }
  refusal-IsRefused write_failed = record {
    contended = λ same. cc same;
    other = λ _. refl;
    store = refl;
  }

  -- The events of a round that took the lock.
  pub record IsBracketed (es : List Event) : Type 0 where
    pub lock : Lock
    pub taking : List Event
    pub work : List Event
    pub releasing : List Event
    pub joined : es ≡ taking ++ (work ++ releasing)
    pub taken : Runs (ok lock) (acquire h.pid w.cfg.lock_file) taking
    pub freed : requests releasing ≡ close w.cfg.lock_file ∷ remove w.cfg.lock_file ∷ []

  under_lock-cases :
      (r : Result LockError Lock) (before rest : List Event)
      {x : Result RunError (Unit {0}) × Store} {es : List Event}
      → es ≡ before ++ rest
      → Runs r (acquire h.pid w.cfg.lock_file) before
      → Runs x (under_lock h fuel w r) rest
      → ((e : LockError) × Runs (err e) (acquire h.pid w.cfg.lock_file) es × IsRefused e x)
        ⊎ IsBracketed es
  under_lock-cases (err e) before rest j first second =
      let (same, ended) = done_runs second in
      inl (
        e,
        subst (Runs (err e) (acquire h.pid w.cfg.lock_file))
            (sym (j ∙ ap (λ y. before ++ y) ended ∙ append-nil before)) first,
        subst (IsRefused e) same (refusal-IsRefused e),
      )
  under_lock-cases (ok lock) before rest j first second =
      let s =
        Runs-Split (after (rounds h fuel w (parsed_repos w.cfg) 0) (finished w)) (released lock)
          second in
      let t = Runs-Split (release lock) _ s.second in
      let held =
        (Ensures-Runs (Observes w.cfg.lock_file) AnyReply (OkHas (IsHeld w.cfg.lock_file))
          (acquire h.pid w.cfg.lock_file) (acquire-Observes w.cfg.lock_file h.pid) first
          (All-AnyReply before)).1 in
      inr (record {
        lock = lock;
        taking = before;
        work = s.before;
        releasing = t.before;
        joined =
            j
            ∙ ap (λ y. before ++ y)
                (s.joined
                  ∙ ap (λ y. s.before ++ y)
                      (t.joined
                        ∙ ap (λ y. t.before ++ y) ((done_runs t.second).1)
                        ∙ append-nil t.before));
        taken = first;
        freed = release-requests w.cfg.lock_file lock held t.first;
      })

  -- A round either does not take the lock: then taking it is all that it does, the store is as before,
  -- and it ends without an error if another process holds the lock, and with the error of the lock file
  -- otherwise. Or it takes it first, and whatever the cycles of its repositories do, fail or be
  -- cancelled, ends by closing and removing the lock file.
  pub run_once-bracket :
      {x : Result RunError (Unit {0}) × Store} {events : List Event}
      → Runs x (run_once h fuel w) events
      → ((e : LockError) × Runs (err e) (acquire h.pid w.cfg.lock_file) events × IsRefused e x)
        ⊎ IsBracketed events
  unfolding run_once
  run_once-bracket runs =
      let s = Runs-Split (acquire h.pid w.cfg.lock_file) (under_lock h fuel w) runs in
      under_lock-cases s.middle s.before s.rest s.joined s.first s.second
