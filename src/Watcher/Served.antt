-- ===== src/Watcher/Served.antt =====
-- A round reaches every repository.
use orascout.Base.{
  ℕ, ◌≡◌, refl, sym, ap, ◌∙◌, subst, ◌⊎◌, inl, inr, Bool, false, List, [], ◌∷◌, append-nil,
  append_assoc, ◌++◌, All, All-map, Result, ok, err,
}
use orascout.Config.{RepoRef, parsed_repos}
use orascout.State.{Store}
use orascout.Host.{after, poll}
use orascout.Host.Runs.{Event, Runs, next}
use orascout.Host.Splits.{Runs-Split, done_runs, if_runs}
use orascout.Lockfile.{
  LockError, locked, mkdir_failed, open_failed, read_failed, remove_failed, reopen_failed,
  write_failed, Lock, acquire, release,
}
use orascout.Watcher.{Libraries, Watcher, CycleError, cycle_one}
use orascout.Watcher.Daemon.{
  Round, RunError, rounds, finished, released, under_lock, refusal, counted, run_once,
}

module _ (h : Libraries) (fuel : ℕ) where
  -- A part of the events is a whole cycle of the repository, from some store.
  pub record IsServed (w : Watcher) (es : List Event) (ref : RepoRef) : Type 0 where
    pub store : Store
    pub result : Result CycleError Bool × Store
    pub before : List Event
    pub events : List Event
    pub rest : List Event
    pub joined : es ≡ before ++ (events ++ rest)
    pub cycle : Runs result (cycle_one h fuel (record w { store = store }) ref) events

  within-IsServed :
      (w : Watcher) (pre mid post : List Event) {es : List Event}
      → es ≡ pre ++ (mid ++ post)
      → (ref : RepoRef) → IsServed w mid ref
      → IsServed w es ref
  within-IsServed w pre mid post j ref d = record {
    store = d.store;
    result = d.result;
    before = pre ++ d.before;
    events = d.events;
    rest = d.rest ++ post;
    joined = j ∙ ap (λ x. pre ++ (x ++ post)) d.joined ∙ simp append_assoc;
    cycle = d.cycle;
  }

  rounds-IsServed :
      (w : Watcher) (s : Store) (refs : List RepoRef) (n : ℕ) {x : Round} {es : List Event}
      → Runs x (rounds h fuel (record w { store = s }) refs n) es
      → x.cancelled ≡ false
      → All (IsServed w es) refs
  unfolding rounds
  rounds-IsServed w s [] n runs e = tt
  rounds-IsServed w s (ref ∷ refs) n (next stopped runs) e = elim (if_runs stopped _ _ runs) [
    | inl (cancelling, r) ↦ cc (e, (done_runs r).0)
    | inr (going_on, r) ↦
        let d = Runs-Split (cycle_one h fuel (record w { store = s }) ref) _ r in
        let later = rounds-IsServed w d.middle.1 refs (counted n d.middle.0) d.second e in
        let asked : Event = record { request = poll; reply = stopped } in
        (
          record {
            store = s;
            result = d.middle;
            before = asked ∷ [];
            events = d.before;
            rest = d.rest;
            joined = ap (◌∷◌ asked) d.joined;
            cycle = d.first;
          },
          All-map _ _
              (within-IsServed w (asked ∷ d.before) d.rest []
                (ap (◌∷◌ asked) (d.joined ∙ ap (λ y. d.before ++ y) (sym (append-nil d.rest)))))
              refs later,
        )
  ]

  finished-cancelled :
      (w : Watcher) (x : Round) {s : Store} {es : List Event}
      → Runs (ok tt, s) (finished w x) es
      → x.cancelled ≡ false
  finished-cancelled w x runs = elim (if_runs x.cancelled _ _ runs) [
    | inl (cancelling, r) ↦ cc ((done_runs r).0)
    | inr (going_on, r) ↦ going_on
  ]

  refusal-locked : (e : LockError) → refusal e ≡ ok tt → e ≡ locked
  refusal-locked locked e = refl
  refusal-locked mkdir_failed e = cc e
  refusal-locked open_failed e = cc e
  refusal-locked read_failed e = cc e
  refusal-locked remove_failed e = cc e
  refusal-locked reopen_failed e = cc e
  refusal-locked write_failed e = cc e

  under_lock-IsServed :
      (w : Watcher) (r : Result LockError Lock) (before rest : List Event) {s : Store}
      {es : List Event}
      → es ≡ before ++ rest
      → Runs r (acquire h.pid w.cfg.lock_file) before
      → Runs (ok tt, s) (under_lock h fuel w r) rest
      → Runs (err locked) (acquire h.pid w.cfg.lock_file) es
        ⊎ All (IsServed w es) (parsed_repos w.cfg)
  under_lock-IsServed w (err e) before rest {es = es} j first second =
      let (same, none_left) = done_runs second in
      let reason = refusal-locked e (ap (λ y. y.0) same) in
      inl (
        subst (λ y. Runs (err y) (acquire h.pid w.cfg.lock_file) es) reason
          (subst (Runs (err e) (acquire h.pid w.cfg.lock_file))
            (sym (j ∙ ap (λ y. before ++ y) none_left ∙ append-nil before)) first))
  under_lock-IsServed w (ok lock) before rest {es = es} j first second =
      let a =
        Runs-Split (after (rounds h fuel w (parsed_repos w.cfg) 0) (finished w)) (released lock)
          second in
      let b = Runs-Split (release lock) _ a.second in
      let c = Runs-Split (rounds h fuel w (parsed_repos w.cfg) 0) (finished w) a.first in
      let well : a.middle.0 ≡ ok tt = ap (λ y. y.0) ((done_runs b.second).0) in
      inr (
        All-map _ _
          (within-IsServed w before c.before (c.rest ++ a.rest) (
            j
            ∙ ap (λ y. before ++ y)
                (a.joined ∙ ap (λ y. y ++ a.rest) c.joined ∙ simp append_assoc)))
          (parsed_repos w.cfg)
          (rounds-IsServed w w.store (parsed_repos w.cfg) 0 c.first (
            finished-cancelled w c.middle (
              subst
                (λ y.
                  Runs {A = Result RunError (Unit {0}) × Store} (y, a.middle.1)
                    (finished w c.middle) c.rest)
                well c.second))))

  -- A round that returns no error either found the lock held by another process, or has gone through
  -- a whole cycle of every configured repository, whatever the cycles of the others ended with.
  pub run_once-IsServed :
      (w : Watcher) {s : Store} {events : List Event}
      → Runs (ok tt, s) (run_once h fuel w) events
      → Runs (err locked) (acquire h.pid w.cfg.lock_file) events
        ⊎ All (IsServed w events) (parsed_repos w.cfg)
  unfolding run_once
  run_once-IsServed w runs =
      let d = Runs-Split (acquire h.pid w.cfg.lock_file) (under_lock h fuel w) runs in
      under_lock-IsServed w d.middle d.before d.rest d.joined d.first d.second
