-- ===== src/Watcher/Contained.antt =====
-- What a whole cycle of one repository writes and removes.
use orascout.Base.{
  ap, ◌∙◌, append_assoc, subst, sym, All-append, All-append_left, All-append_right, All-map, ℕ, ◌≡◌,
  refl, ◌⊎◌, inl, inr, Bool, Option, none, some, List, ◌++◌, All, Result, ok, err, Bytes,
}
use orascout.Config.{Config, RepoRef, load}
use orascout.Config.Valid.{load-IsValid}
use orascout.Deploy.Safety.Denylist.{IsDirectory}
use orascout.Deploy.Contained.Runs.{run-Passed}
use orascout.Deploy.Contained.Strategies.{Allows}
use orascout.Deploy.Run.{run}
use orascout.Host.{on_ok, Call, Act, done, call, ◌>>=◌, remove_all}
use orascout.Host.Runs.{Event, Runs, IsSane, Calls, Calls-Runs, Calls-after, Calls-bind, Calls-imp}
use orascout.Registry.Client.{pull}
use orascout.State.{Entry, Store}
use orascout.Watcher.{
  Libraries, Watcher, CycleError, Change, check, plan, artifact_dir, request, deploy_change,
  deploy_plan, persist, cycle_one,
}
use orascout.Deploy.Safety.{validate_request}
use orascout.Host.Splits.{Runs-Split}
use orascout.Watcher.Recorded.{IsPlanned, plan-IsPlanned}
use orascout.Watcher.Own.{IsOwnCall, plan-Keeps, pull-Keeps, check-Keeps, persist-Keeps}

abbrev IsSaneAll : List Event → Type 0
IsSaneAll = All (λ e. IsSane e.request e.reply)

module _ (h : Libraries) (w : Watcher) (ref : RepoRef) where
  -- A call of a cycle that deploys the change: its own, or one of the deploy, whose request has passed
  -- the path checks.
  abbrev pub IsFor : Change → Call → Type 0
  IsFor c call =
      IsOwnCall h w ref call
      ⊎ ((validate_request c.spec w.cfg.allowed_target_roots ≡ ok tt)
          × Allows c.spec.deploy_type (request h w ref c) call)

  -- A cycle that planned this change.
  pub record IsFollowed (es : List Event) : Type 0 where
    pub change : Change
    pub planning : List Event
    pub rest : List Event
    pub joined : es ≡ planning ++ rest
    pub planned : IsPlanned h w ref change planning
    pub own : All (λ e. IsOwnCall h w ref e.request) planning
    pub deploying : All (λ e. IsFor change e.request) rest

  -- Either all calls are those of the cycle itself, or there is one change, which the registry's answers
  -- in this cycle determine, and what is not the cycle's own is allowed by its request.
  abbrev pub IsConfined : List Event → Type 0
  IsConfined es = All (λ e. IsOwnCall h w ref e.request) es ⊎ IsFollowed es

  own-IsFor :
      {A : Type 0} (c : Change) (m : Act A) → Calls (IsOwnCall h w ref) m → Calls (IsFor c) m
  own-IsFor c m k = Calls-imp (IsOwnCall h w ref) (IsFor c) (λ q p. inl p) m k

  module _ (roots : All IsDirectory w.cfg.allowed_target_roots) (fuel : ℕ) where
    deploy_change-IsFor : (c : Change) → Calls (IsFor c) (deploy_change h fuel w ref c)
    unfolding deploy_change
    deploy_change-IsFor c =
        Calls-bind (IsFor c)
          (check CycleError.clean_failed (call (remove_all (artifact_dir h w ref)))) _
          (own-IsFor c (check CycleError.clean_failed (call (remove_all (artifact_dir h w ref)))) (
            check-Keeps h w ref CycleError.clean_failed (call (remove_all (artifact_dir h w ref)))
              (refl, λ _ _. tt)))
          (λ _.
            Calls-bind (IsFor c)
              (check CycleError.pull_failed (pull w.client ref.full_ref (artifact_dir h w ref))) _
              (own-IsFor c
                (check CycleError.pull_failed (pull w.client ref.full_ref (artifact_dir h w ref)))
                (check-Keeps h w ref CycleError.pull_failed
                  (pull w.client ref.full_ref (artifact_dir h w ref)) (pull-Keeps h w ref)))
              (λ _.
                Calls-bind (IsFor c) (check CycleError.deploy_failed (run fuel (request h w ref c)))
                  _
                  (Calls-after (IsFor c) (run fuel (request h w ref c)) _
                    (Calls-imp _ (IsFor c) (λ q p. inr p) (run fuel (request h w ref c))
                      (run-Passed fuel (request h w ref c) roots))
                    (λ _. tt))
                  (λ _. (inl tt, λ t _. tt))))

    deployed-IsFor : (c : Change) → Calls (IsFor c) (deploy_plan h fuel w ref (some c))
    deployed-IsFor c =
        Calls-bind (IsFor c) (deploy_change h fuel w ref c) _ (deploy_change-IsFor c) (λ _. tt)

    -- The three parts of a cycle, by what was planned.
    parts-IsConfined :
        (r : Result CycleError (Option Change)) (o : Result CycleError (Option Entry))
        (planning acting persisting : List Event) {x : Result CycleError Bool × Store}
        {es : List Event}
        → es ≡ planning ++ (acting ++ persisting)
        → Runs r (plan h w ref) planning
        → Runs o (on_ok (deploy_plan h fuel w ref) r) acting
        → Runs x (persist h w ref o) persisting
        → IsSaneAll planning
        → IsSaneAll acting
        → IsSaneAll persisting
        → IsConfined es
    parts-IsConfined r o planning acting persisting {es = es} j first second third s1 s2 s3 =
        by_plan r first second
      where
        own : List Event → Type 0
        own = All (λ e. IsOwnCall h w ref e.request)

        planned_own :
            {r' : Result CycleError (Option Change)}
            → Runs r' (plan h w ref) planning
            → own planning
        planned_own run = Calls-Runs (IsOwnCall h w ref) (plan h w ref) (plan-Keeps h w ref) run s1

        persisted_own : own persisting
        persisted_own =
            Calls-Runs (IsOwnCall h w ref) (persist h w ref o) (persist-Keeps h w ref o) third s3

        all_own : own planning → own acting → IsConfined es
        all_own a b = inl (
            subst own (sym j) (
              All-append _ planning (acting ++ persisting) a
                (All-append _ acting persisting b persisted_own)))

        by_plan :
            (r' : Result CycleError (Option Change))
            → Runs r' (plan h w ref) planning
            → Runs o (on_ok (deploy_plan h fuel w ref) r') acting
            → IsConfined es
        by_plan (err e) run act =
            all_own (planned_own run) (Calls-Runs (IsOwnCall h w ref) (done (err e)) tt act s2)
        by_plan (ok none) run act =
            all_own (planned_own run) (Calls-Runs (IsOwnCall h w ref) (done (ok none)) tt act s2)
        by_plan (ok (some c)) run act = inr (record {
          change = c;
          planning = planning;
          rest = acting ++ persisting;
          joined = j;
          planned = plan-IsPlanned h w ref c run;
          own = planned_own run;
          deploying =
              All-append (λ e. IsFor c e.request) acting persisting
                (Calls-Runs (IsFor c) (deploy_plan h fuel w ref (some c)) (deployed-IsFor c) act s2)
                (All-map _ _ (λ e p. inl p) persisting persisted_own);
        })

    cycle_one-IsConfined :
        {x : Result CycleError Bool × Store} {es : List Event}
        → Runs x (cycle_one h fuel w ref) es
        → IsSaneAll es
        → IsConfined es
    unfolding cycle_one
    cycle_one-IsConfined runs sane =
        let s = Runs-Split (plan h w ref >>= deploy_plan h fuel w ref) (persist h w ref) runs in
        let t = Runs-Split (plan h w ref) (on_ok (deploy_plan h fuel w ref)) s.first in
        let joined =
          s.joined ∙ ap (λ y. y ++ s.rest) t.joined ∙ append_assoc t.before t.rest s.rest in
        let whole = subst IsSaneAll joined sane in
        let later = All-append_right _ t.before (t.rest ++ s.rest) whole in
        parts-IsConfined t.middle s.middle t.before t.rest s.rest joined t.first t.second s.second
          (All-append_left _ t.before (t.rest ++ s.rest) whole)
          (All-append_left _ t.rest s.rest later) (All-append_right _ t.rest s.rest later)

-- A cycle of a repository under a loaded configuration, on every host that lists entries by names, is of
-- one of two kinds. Either each call of it that writes or removes is one of the cycle itself: in the
-- directory of the repository's artifact, which alone it removes, or on the state file, the file beside
-- it or their directory. Or the registry's answers in it determine one change, by the resolved digest
-- and the parsed annotations, and each further call that writes or removes is allowed by the request of
-- the deploy of this change, with this directory and the configured roots, and the request has passed
-- the path checks.
pub cycle_one-contained :
    (getenv : Bytes → Bytes) (yaml : Bytes → Option Config) (file : Option Bytes) (h : Libraries)
    (fuel : ℕ) (w : Watcher) (ref : RepoRef) {x : Result CycleError Bool × Store}
    {events : List Event}
    → load getenv yaml file ≡ ok w.cfg
    → Runs x (cycle_one h fuel w ref) events
    → All (λ e. IsSane e.request e.reply) events
    → IsConfined h w ref events
cycle_one-contained getenv yaml file h fuel w ref loaded runs sane =
    cycle_one-IsConfined h w ref (load-IsValid getenv yaml file loaded).0.roots fuel runs sane
