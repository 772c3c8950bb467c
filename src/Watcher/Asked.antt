-- ===== src/Watcher/Asked.antt =====
-- The operations of the registry client that end well, by what the registry answered to them.
use orascout.Base.{
  inl, subst, inr, ◌≡◌, refl, Option, none, some, List, [], ◌∷◌, ◌++◌, take, Result, ok, err, Bytes,
}
use orascout.Annotations.{RawAnnotations}
use orascout.Host.{
  mkdir_all, read_body, resolve, fetch_reference, pull_copy, file_store, done, call, ◌>>=◌, ◌>>◌,
  Remote, new_repository,
}
use orascout.Host.Runs.{Event, Runs, stop, next}
use orascout.Host.Splits.{failing, going, split_ok}
use orascout.Registry.{Ref, RefError, split_ref}
use orascout.Watcher.Answers.{
  Made, Made-within, at_end, IsDecoded, IsResolved, IsAnnotated, IsPulled,
}
use orascout.Registry.Client.{
  pull, Try, or_none, fetch_annotations, resolve_digest, Client, of_ref, os, remote_of,
  repo_and_tag, manifest_limit,
}

same_ok : {E A : Type 0} {a b : A} → ◌≡◌ {A = Result E A} (ok a) (ok b) → a ≡ b
same_ok e = cc e

module _ (c : Client) (ref : Bytes) where
  parts_runs :
      (s : Result RefError Ref) {rt : Remote × Bytes} {es : List Event}
      → split_ref ref ≡ s
      → Runs
          (ok rt)
          (done (of_ref s) >>= λ r.
            os (call (new_repository (r.host ++ b'/' ∷ r.path)))
            >> done (ok (remote_of c r, r.tag)))
          es
      → (r : Ref) × (split_ref ref ≡ ok r) × (rt ≡ (remote_of c r, r.tag))
  parts_runs (ok r) e (next (ok u) (stop same)) = (r, e, cc same)
  parts_runs (ok r) e (next (err f) (stop same)) = cc same
  parts_runs (err x) e (stop same) = cc same

  repo_runs :
      {rt : Remote × Bytes} {es : List Event}
      → Runs (ok rt) (repo_and_tag c ref) es
      → (r : Ref) × (split_ref ref ≡ ok r) × (rt ≡ (remote_of c r, r.tag))
  unfolding repo_and_tag
  repo_runs runs = parts_runs (split_ref ref) refl runs

  -- What a program does behind `repoAndTag`, if it ends well: it works on the parts of the reference.
  record Located {A : Type 0} (a : A) (f : Remote × Bytes → Try A) (es : List Event) : Type 0 where
    parts : Ref
    parsed : split_ref ref ≡ ok parts
    before : List Event
    rest : List Event
    joined : es ≡ before ++ rest
    runs : Runs (ok a) (f (remote_of c parts, parts.tag)) rest

  located :
      {A : Type 0} (a : A) (f : Remote × Bytes → Try A) {es : List Event}
      → Runs (ok a) (repo_and_tag c ref >>= f) es
      → Located a f es
  located a f runs = elim (split_ok (repo_and_tag c ref) f runs) [
    | failing x e r ↦ cc e
    | going rt before rest j first second ↦
        let (parts, parsed, same) = repo_runs first in
        record {
          parts = parts;
          parsed = parsed;
          before = before;
          rest = rest;
          joined = j;
          runs = subst (λ x. Runs (ok a) (f x) rest) same second;
        }
  ]

  resolved_last :
      (r : Remote) (tag : Bytes) {d : Bytes} {es : List Event}
      → Runs (ok d) (os (call (resolve r tag))) es
      → Made (resolve r tag) (ok d) es
  resolved_last r tag {es = es} (next (ok d') (stop e)) =
      subst (λ x. Made (resolve r tag) (ok x) es) (same_ok e)
        (record { before = []; rest = []; joined = refl })
  resolved_last r tag (next (err f) (stop e)) = cc e

  pub resolve_digest-IsResolved :
      {d : Bytes} {es : List Event} → Runs (ok d) (resolve_digest c ref) es → IsResolved c ref d es
  unfolding resolve_digest
  resolve_digest-IsResolved {d} runs =
      let at = located d (λ rt. os (call (resolve rt.0 rt.1))) runs in
      record {
        parts = at.parts;
        parsed = at.parsed;
        made =
            Made-within at.before [] (at_end at.before at.rest at.joined)
              (resolved_last (remote_of c at.parts) at.parts.tag at.runs);
      }

  or_none-IsDecoded :
      (decode : Bytes → Option (Option RawAnnotations)) (body : Bytes) (raw : RawAnnotations)
      (o : Option (Option RawAnnotations))
      → decode (take manifest_limit body) ≡ o
      → or_none o ≡ ok raw
      → IsDecoded decode body raw
  or_none-IsDecoded decode body raw none d e = cc e
  or_none-IsDecoded decode body raw (some none) d e = inr (d, cc e)
  or_none-IsDecoded decode body raw (some (some x)) d e = inl (cc (d, e))

  fetched_last :
      (decode : Bytes → Option (Option RawAnnotations)) (r : Remote) (tag : Bytes)
      {raw : RawAnnotations} {es : List Event}
      → Runs
          (ok raw)
          (os (call (fetch_reference r tag))
            >> (os (call read_body) >>= λ body. done (or_none (decode (take manifest_limit body)))))
          es
      → Made (fetch_reference r tag) (ok tt) es
        × ((body : Bytes) × Made read_body (ok body) es × IsDecoded decode body raw)
  fetched_last decode r tag {raw} (next (ok tt) (next (ok body) (stop e))) = (
    record { before = []; rest = _; joined = refl },
    (
      body,
      record { before = _ ∷ []; rest = []; joined = refl },
      or_none-IsDecoded decode body raw _ refl e,
    ),
  )
  fetched_last decode r tag (next (ok tt) (next (err f) (stop e))) = cc e
  fetched_last decode r tag (next (err f) (stop e)) = cc e

  pub fetch_annotations-IsAnnotated :
      (decode : Bytes → Option (Option RawAnnotations)) {raw : RawAnnotations} {es : List Event}
      → Runs (ok raw) (fetch_annotations decode c ref) es
      → IsAnnotated c ref decode raw es
  unfolding fetch_annotations
  fetch_annotations-IsAnnotated decode {raw} runs =
      let at =
        located raw
          (λ rt.
            os (call (fetch_reference rt.0 rt.1))
            >> (os (call read_body) >>= λ body. done (or_none (decode (take manifest_limit body)))))
          runs in
      let (fetched, found) = fetched_last decode (remote_of c at.parts) at.parts.tag at.runs in
      record {
        parts = at.parts;
        parsed = at.parsed;
        fetched = Made-within at.before [] (at_end at.before at.rest at.joined) fetched;
        body = found.0;
        read = Made-within at.before [] (at_end at.before at.rest at.joined) found.1;
        decoded = found.2;
      }

  pulled_last :
      (dest_dir : Bytes) (r : Remote) (tag : Bytes) {es : List Event}
      → Runs (ok tt) (os (call (file_store dest_dir)) >> os (call (pull_copy r tag dest_dir))) es
      → Made (pull_copy r tag dest_dir) (ok tt) es
  pulled_last dest_dir r tag (next (ok u) (next (ok v) (stop e))) = record {
    before = _ ∷ [];
    rest = [];
    joined = refl;
  }
  pulled_last dest_dir r tag (next (ok u) (next (err f) (stop e))) = cc e
  pulled_last dest_dir r tag (next (err f) (stop e)) = cc e

  pub pull-IsPulled :
      (dest_dir : Bytes) {es : List Event}
      → Runs (ok tt) (pull c ref dest_dir) es
      → IsPulled c ref dest_dir es
  unfolding pull
  pull-IsPulled dest_dir (next {es = es} (ok u) runs) =
      let at =
        located tt
          (λ rt. os (call (file_store dest_dir)) >> os (call (pull_copy rt.0 rt.1 dest_dir)))
          runs in
      let copied =
        Made-within at.before [] (at_end at.before at.rest at.joined)
          (pulled_last dest_dir (remote_of c at.parts) at.parts.tag at.runs) in
      let made : Event = record { request = mkdir_all dest_dir 493; reply = ok u } in
      record {
        parts = at.parts;
        parsed = at.parsed;
        copied = Made-within (made ∷ []) [] (at_end (made ∷ []) es refl) copied;
      }
  pull-IsPulled dest_dir (next (err f) (stop e)) = cc e
