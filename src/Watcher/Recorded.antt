-- ===== src/Watcher/Recorded.antt =====
-- A cycle records a digest only after a successful deploy of it.
use orascout.Base.{
  [], ne_of_eqb, ℕ, ◌≡◌, refl, sym, ap, ◌∙◌, subst, ◌≢◌, inl, inr, Bool, true, false, none, some,
  List, append-nil, append_assoc, ◌++◌, if◌then◌else◌, Result, ok, err, Bytes, eqb,
}
use orascout.Watcher.Answers.{
  at_end, IsResolved, IsResolved-within, IsAnnotated, IsAnnotated-within, IsPulled, IsPulled-within,
}
use orascout.Watcher.Asked.{resolve_digest-IsResolved, fetch_annotations-IsAnnotated, pull-IsPulled}
use orascout.Annotations.{RawAnnotations, Spec, parse}
use orascout.Config.{RepoRef}
use orascout.State.{Entry, get}
use orascout.Host.{Act, done, after, call, remove_all, now}
use orascout.Host.Runs.{Event, Runs, stop, next}
use orascout.Host.Splits.{Runs-Split, failing, going, split_ok, done_runs, if_runs}
use orascout.Registry.Client.{resolve_digest, fetch_annotations, pull}
use orascout.Deploy.Run.{run, type_text}
use orascout.Watcher.{
  ℤ, Libraries, Watcher, CycleError, Change, resolve_failed, fetch_failed, bad_annotations,
  clean_failed, pull_failed, deploy_failed, wrapped, check, digest_of, planned, fetch_plan, plan,
  artifact_dir, request, deploy_change,
}

-- A checked program succeeds only if the program does.
check_ok :
    {E A : Type 0} (f : E → CycleError) (m : Act (Result E A)) {a : A} {es : List Event}
    → Runs (ok a) (check f m) es
    → Runs (ok a) m es
check_ok {E} {A} f m {a} {es} runs =
    let s = Runs-Split m (λ r. done (wrapped f r)) runs in
    unwrapped s.middle s.before s.rest s.joined s.first s.second
  where
    unwrapped :
        (r : Result E A) (before rest : List Event)
        → es ≡ before ++ rest
        → Runs r m before
        → Runs (ok a) (done (wrapped f r)) rest
        → Runs (ok a) m es
    unwrapped (ok b) before rest e first (stop same) =
        let value : b ≡ a = cc same in
        subst (λ x. Runs (ok x) m es) value
          (subst (Runs (ok b) m) (sym (e ∙ append-nil before)) first)
    unwrapped (err x) before rest e first (stop same) = cc same

chosen :
    {A : Type 0} (b : Bool) (x c : A)
    → (if b then none else some x) ≡ some c
    → (b ≡ false) × (x ≡ c)
chosen true x c e = cc e
chosen false x c e = (refl, cc e)

module _ (h : Libraries) (w : Watcher) (ref : RepoRef) where
  -- The planning of a change: the registry resolved the tag to its digest, which is not the recorded
  -- one, and the annotations of the manifest that was fetched are parsed to its `Spec`.
  pub record IsPlanned (c : Change) (es : List Event) : Type 0 where
    pub live : w.dry_run ≡ false
    pub previous : c.prev_digest ≡ digest_of (get w.store ref.full_ref)
    pub changed : c.digest ≢ c.prev_digest
    pub resolved : IsResolved w.client ref.full_ref c.digest es
    pub raw : RawAnnotations
    pub annotated : IsAnnotated w.client ref.full_ref h.decode_manifest raw es
    pub parsed : parse h.parse_duration raw ≡ ok c.spec

  -- What is left of it behind the resolving.
  record IsFetched (digest : Bytes) (c : Change) (es : List Event) : Type 0 where
    live : w.dry_run ≡ false
    digest_same : digest ≡ c.digest
    previous : digest_of (get w.store ref.full_ref) ≡ c.prev_digest
    raw : RawAnnotations
    annotated : IsAnnotated w.client ref.full_ref h.decode_manifest raw es
    parsed : parse h.parse_duration raw ≡ ok c.spec

  planned-IsFetched :
      (digest : Bytes) (spec : Spec) (c : Change) (raw : RawAnnotations) {es : List Event}
      → IsAnnotated w.client ref.full_ref h.decode_manifest raw es
      → parse h.parse_duration raw ≡ ok spec
      → planned h w digest (digest_of (get w.store ref.full_ref)) spec ≡ some c
      → IsFetched digest c es
  planned-IsFetched digest spec c raw annotated parsed e =
      let prev = digest_of (get w.store ref.full_ref) in
      let change : Change = record { digest = digest; prev_digest = prev; spec = spec } in
      let (live, same) = chosen w.dry_run change c e in
      record {
        live = live;
        digest_same = ap (λ x. x.digest) same;
        previous = ap (λ x. x.prev_digest) same;
        raw = raw;
        annotated = annotated;
        parsed = parsed ∙ ap (λ x. ok x.spec) same;
      }

  fetch_plan-IsFetched :
      (digest : Bytes) (c : Change) {es : List Event}
      → Runs (ok (some c)) (fetch_plan h w ref digest (digest_of (get w.store ref.full_ref))) es
      → IsFetched digest c es
  fetch_plan-IsFetched digest c runs =
      elim (split_ok
        (check fetch_failed (fetch_annotations h.decode_manifest w.client ref.full_ref)) _ runs) [
          | failing x e r ↦ cc e
          | going raw before rest j first second ↦
              elim (split_ok (check bad_annotations (done (parse h.parse_duration raw))) _ second) [
                | failing x e r ↦ cc e
                | going spec before' rest' j' first' second' ↦
                    planned-IsFetched digest spec c raw
                      (IsAnnotated-within [] rest j (
                        fetch_annotations-IsAnnotated w.client ref.full_ref h.decode_manifest (
                          check_ok fetch_failed
                            (fetch_annotations h.decode_manifest w.client ref.full_ref) first)))
                      ((done_runs
                        (check_ok bad_annotations (done (parse h.parse_duration raw)) first')).0)
                      (cc ((done_runs second').0))
              ]
        ]

  resolved_fetched :
      (digest : Bytes) (c : Change) (before rest : List Event) {es : List Event}
      → es ≡ before ++ rest
      → eqb digest (digest_of (get w.store ref.full_ref)) ≡ false
      → IsResolved w.client ref.full_ref digest before
      → IsFetched digest c rest
      → IsPlanned c es
  resolved_fetched digest c before rest {es = es} j other resolved f = record {
    live = f.live;
    previous = sym f.previous;
    changed = λ same.
        ne_of_eqb digest (digest_of (get w.store ref.full_ref)) other
          (f.digest_same ∙ same ∙ sym f.previous);
    resolved =
        subst (λ x. IsResolved w.client ref.full_ref x es) f.digest_same
          (IsResolved-within [] rest j resolved);
    raw = f.raw;
    annotated = IsAnnotated-within before [] (at_end before rest j) f.annotated;
    parsed = f.parsed;
  }

  pub plan-IsPlanned :
      (c : Change) {es : List Event} → Runs (ok (some c)) (plan h w ref) es → IsPlanned c es
  unfolding plan
  plan-IsPlanned c runs =
      elim (split_ok (check resolve_failed (resolve_digest w.client ref.full_ref)) _ runs) [
        | failing x e r ↦ cc e
        | going digest before rest j first second ↦
            elim (if_runs (eqb digest (digest_of (get w.store ref.full_ref))) _ _ second) [
              | inl (same, r) ↦ cc ((done_runs r).0)
              | inr (other, r) ↦
                  resolved_fetched digest c before rest j other
                    (resolve_digest-IsResolved w.client ref.full_ref
                      (check_ok resolve_failed (resolve_digest w.client ref.full_ref) first))
                    (fetch_plan-IsFetched digest c r)
            ]
      ]

  entry_of : Change → ℤ → Entry
  entry_of c t = record {
    digest = c.digest;
    deployed_at = t;
    deploy_type = type_text c.spec.deploy_type;
  }

  -- The record has the digest and the type of the change.
  abbrev pub IsRecordOf : Change → Entry → Type 0
  IsRecordOf c e = (e.digest ≡ c.digest) × (e.deploy_type ≡ type_text c.spec.deploy_type)

  entry_runs :
      (c : Change) (e : Entry) {es : List Event}
      → Runs {A = Result CycleError Entry}
          (ok e)
          (after (call now) (λ t. done (ok (entry_of c t))))
          es
      → IsRecordOf c e
  unfolding entry_of
  entry_runs c e (next t (stop p)) =
      let same : entry_of c t ≡ e = cc p in
      (sym (ap (λ x. x.digest) same), sym (ap (λ x. x.deploy_type) same))

  -- A part of the events is a successful deploy for the change, of what was pulled before, and the
  -- record has the digest of the change.
  pub record IsDeploy (fuel : ℕ) (c : Change) (e : Entry) (es : List Event) : Type 0 where
    pub before : List Event
    pub events : List Event
    pub rest : List Event
    pub joined : es ≡ before ++ (events ++ rest)
    pub pulled : IsPulled w.client ref.full_ref (artifact_dir h w ref) before
    pub deployed : Runs (ok tt) (run fuel (request h w ref c)) events
    pub recorded : IsRecordOf c e

  pub deploy_change-IsDeploy :
      (fuel : ℕ) (c : Change) (e : Entry) {es : List Event}
      → Runs (ok e) (deploy_change h fuel w ref c) es
      → IsDeploy fuel c e es
  unfolding deploy_change entry_of
  deploy_change-IsDeploy fuel c e runs =
      elim (split_ok (check clean_failed (call (remove_all (artifact_dir h w ref)))) _ runs) [
        | failing x p r ↦ cc p
        | going u before rest j first second ↦
            elim (split_ok (check pull_failed (pull w.client ref.full_ref (artifact_dir h w ref))) _
              second) [
                | failing x p r ↦ cc p
                | going u' before' rest' j' first' second' ↦
                    elim (split_ok (check deploy_failed (run fuel (request h w ref c))) _ second') [
                      | failing x p r ↦ cc p
                      | going v middle after_it j'' first'' second'' ↦ record {
                        before = before ++ before';
                        events = middle;
                        rest = after_it;
                        joined =
                            j
                            ∙ ap (λ x. before ++ x) (j' ∙ ap (λ x. before' ++ x) j'')
                            ∙ sym (append_assoc before before' (middle ++ after_it));
                        pulled = IsPulled-within before [] (at_end before before' refl) (
                            pull-IsPulled w.client ref.full_ref (artifact_dir h w ref) (
                              check_ok pull_failed
                                (pull w.client ref.full_ref (artifact_dir h w ref)) first'));
                        deployed = check_ok deploy_failed (run fuel (request h w ref c)) first'';
                        recorded = entry_runs c e second'';
                      }
                    ]
              ]
      ]
