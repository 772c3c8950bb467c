-- ===== src/Watcher/Cycle.antt =====
-- What a whole cycle of one repository leaves in the store.
use orascout.Base.{
  eqb_ne, eqb_refl, ℕ, ◌≡◌, refl, sym, ap, ◌∙◌, subst, ◌≢◌, ◌⊎◌, inl, inr, Bool, true, Option, none,
  some, List, [], ◌∷◌, append-nil, append_assoc, ◌++◌, Result, ok, err, Bytes,
}
use orascout.Config.{RepoRef}
use orascout.State.{Entry, FileShape, Store, StateError, get, get_in}
use orascout.State.Program.{set_program, set_entries, save_program}
use orascout.Host.{◌>>=◌}
use orascout.Host.Runs.{Event, Runs, stop}
use orascout.Host.Splits.{Runs-Split, failing, going, split_ok, done_runs}
use orascout.Watcher.{
  Libraries, Watcher, CycleError, Change, plan, deploy_change, deploy_plan, persisted, persist,
  cycle_one,
}
use orascout.Watcher.Recorded.{IsPlanned, IsDeploy, plan-IsPlanned, deploy_change-IsDeploy}
use orascout.Watcher.Answers.{IsPulled-within}

-- The store holds the entry for the key, and the others as before.
pub record Holds (ref : Bytes) (e : Entry) (s s' : Store) : Type 0 where
  pub entry : get s' ref ≡ some e
  pub others : (key : Bytes) → key ≢ ref → get s' key ≡ get s key

module _ (marshal : FileShape → Option Bytes) (s : Store) (ref : Bytes) (e : Entry) where
  Holds-added :
      (path : Bytes) (entries : List (Bytes × Entry))
      → s.shape.entries ≡ some entries
      → Holds ref e s (record {
        path = path;
        shape = record { schema = s.shape.schema; entries = some ((ref, e) ∷ entries) };
      })
  unfolding get
  Holds-added path entries m = record {
    entry = rw (eqb_refl ref) refl;
    others = λ key n. rw (eqb_ne key ref n) (sym (ap (λ o. get_in o key) m));
  }

  -- Whether a save fails or not, the store in memory holds the entry, if it has a map.
  abbrev pub Recorded : Result StateError (Unit {0}) × Store → Type 0
  Recorded x = ((x.0 ≢ ok tt) × (x.1 ≡ s)) ⊎ Holds ref e s x.1

  pub set_entries-Recorded :
      (o : Option (List (Bytes × Entry))) {x : Result StateError (Unit {0}) × Store}
      {es : List Event}
      → s.shape.entries ≡ o
      → Runs x (set_entries marshal s ref e o) es
      → Recorded x
  set_entries-Recorded none m (stop p) = subst Recorded p (inl ((λ q. cc q), refl))
  set_entries-Recorded (some entries) m runs =
      let r = Runs-Split (save_program marshal _) _ runs in
      subst Recorded ((done_runs r.second).0) (inr (Holds-added s.path entries m))

  pub set_program-Recorded :
      {x : Result StateError (Unit {0}) × Store} {es : List Event}
      → Runs x (set_program marshal s ref e) es
      → Recorded x
  unfolding set_program
  set_program-Recorded runs = set_entries-Recorded s.shape.entries refl runs

module _ (h : Libraries) (fuel : ℕ) (w : Watcher) (ref : RepoRef) where
  -- The cycle has planned a change, then deployed it, and recorded it.
  pub record IsUpdate (x : Result CycleError Bool × Store) (es : List Event) : Type 0 where
    pub change : Change
    pub entry : Entry
    pub planning : List Event
    pub rest : List Event
    pub joined : es ≡ planning ++ rest
    pub planned : IsPlanned h w ref change planning
    pub deploy : IsDeploy h w ref fuel change entry rest
    pub holds : Holds ref.full_ref entry w.store x.1

  -- Or it has left the store as it was, and does not claim a deploy.
  abbrev pub Outcome : List Event → Result CycleError Bool × Store → Type 0
  Outcome es x = ((x.0 ≢ ok true) × (x.1 ≡ w.store)) ⊎ IsUpdate x es

  IsDeploy-within :
      (c : Change) (e : Entry) (pre mid post : List Event) {es : List Event}
      → es ≡ pre ++ (mid ++ post)
      → IsDeploy h w ref fuel c e mid
      → IsDeploy h w ref fuel c e es
  IsDeploy-within c e pre mid post j d = record {
    before = pre ++ d.before;
    events = d.events;
    rest = d.rest ++ post;
    joined = j ∙ ap (λ x. pre ++ (x ++ post)) d.joined ∙ simp append_assoc;
    pulled = IsPulled-within pre [] (ap (λ x. pre ++ x) (sym (append-nil d.before))) d.pulled;
    deployed = d.deployed;
    recorded = d.recorded;
  }

  deploy_plan-some :
      (o : Option Change) (e : Entry) {es : List Event}
      → Runs (ok (some e)) (deploy_plan h fuel w ref o) es
      → (c : Change) × (o ≡ some c) × IsDeploy h w ref fuel c e es
  deploy_plan-some none e runs = cc ((done_runs runs).0)
  deploy_plan-some (some c) e {es} runs = elim (split_ok (deploy_change h fuel w ref c) _ runs) [
    | failing x p r ↦ cc p
    | going e' before rest j first second ↦
        let same : e' ≡ e = cc ((done_runs second).0) in
        (
          c,
          refl,
          subst (λ x. IsDeploy h w ref fuel c x es) same
              (IsDeploy-within c e' [] before rest j
                (deploy_change-IsDeploy h w ref fuel c e' first)),
        )
  ]

  -- Planning a change, and then deploying it.
  record IsReady (e : Entry) (es : List Event) : Type 0 where
    change : Change
    planning : List Event
    rest : List Event
    joined : es ≡ planning ++ rest
    planned : IsPlanned h w ref change planning
    deploy : IsDeploy h w ref fuel change e rest

  planned-IsReady :
      (e : Entry) {es : List Event}
      → Runs (ok (some e)) (plan h w ref >>= deploy_plan h fuel w ref) es
      → IsReady e es
  planned-IsReady e runs = elim (split_ok (plan h w ref) (deploy_plan h fuel w ref) runs) [
    | failing x p r ↦ cc p
    | going o before rest j first second ↦
        let (c, chosen, d) = deploy_plan-some o e second in
        record {
          change = c;
          planning = before;
          rest = rest;
          joined = j;
          planned =
              plan-IsPlanned h w ref c
                (subst (λ x. Runs (ok x) (plan h w ref) before) chosen first);
          deploy = d;
        }
  ]

  ready-IsUpdate :
      (e : Entry) {es : List Event} (before rest : List Event) (x : Result CycleError Bool × Store)
      → es ≡ before ++ rest
      → IsReady e before
      → Holds ref.full_ref e w.store x.1
      → IsUpdate x es
  ready-IsUpdate e before rest x j r holds = record {
    change = r.change;
    entry = e;
    planning = r.planning;
    rest = r.rest ++ rest;
    joined = j ∙ ap (λ y. y ++ rest) r.joined ∙ append_assoc r.planning r.rest rest;
    planned = r.planned;
    deploy = IsDeploy-within r.change e [] r.rest rest refl r.deploy;
    holds = holds;
  }

  persisted-Outcome :
      (e : Entry) {es : List Event} (before rest : List Event)
      (y : Result StateError (Unit {0}) × Store)
      → es ≡ before ++ rest
      → IsReady e before
      → Recorded h.marshal w.store ref.full_ref e y
      → Outcome es (persisted h y)
  persisted-Outcome e before rest (ok u, s) j r (inl failed) = absurd (failed.0 refl)
  persisted-Outcome e before rest (err x, s) j r (inl failed) = inl ((λ q. cc q), failed.1)
  persisted-Outcome e before rest (ok u, s) j r (inr holds) =
      inr (ready-IsUpdate e before rest (ok true, s) j r holds)
  persisted-Outcome e before rest (err x, s) j r (inr holds) =
      inr (ready-IsUpdate e before rest (err (CycleError.persist_failed x), s) j r holds)

  persist-Outcome :
      (r : Result CycleError (Option Entry)) (before rest : List Event)
      {x : Result CycleError Bool × Store} {es : List Event}
      → es ≡ before ++ rest
      → Runs r (plan h w ref >>= deploy_plan h fuel w ref) before
      → Runs x (persist h w ref r) rest
      → Outcome es x
  persist-Outcome (err e) before rest {es = es} j first (stop p) =
      subst (Outcome es) p (inl ((λ q. cc q), refl))
  persist-Outcome (ok none) before rest {es = es} j first (stop p) =
      subst (Outcome es) p (inl ((λ q. cc q), refl))
  persist-Outcome (ok (some e)) before rest {es = es} j first second =
      let s = Runs-Split (set_program h.marshal w.store ref.full_ref e) _ second in
      subst (Outcome es) ((done_runs s.second).0) (
        persisted-Outcome e before rest s.middle j (planned-IsReady e first)
          (set_program-Recorded h.marshal w.store ref.full_ref e s.first))

  -- However a cycle of one repository runs: either the store is as before and no deploy is claimed. Or
  -- this is no dry run, and these came one after the other: the registry resolved the tag of the
  -- repository to a digest other than the recorded one, and the manifest fetched by the tag gave
  -- annotations that parse; the artifact was pulled by the same tag; a deploy with this digest and these
  -- annotations ended well; and then a record with exactly this digest was put in the store, where all
  -- other keys keep their entries.
  pub cycle_one-recorded :
      {x : Result CycleError Bool × Store} {events : List Event}
      → Runs x (cycle_one h fuel w ref) events
      → Outcome events x
  unfolding cycle_one
  cycle_one-recorded runs =
      let s = Runs-Split (plan h w ref >>= deploy_plan h fuel w ref) (persist h w ref) runs in
      persist-Outcome s.middle s.before s.rest s.joined s.first s.second
