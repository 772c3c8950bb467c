-- ===== src/Watcher/Own.antt =====
-- What a cycle of one repository writes and removes itself, apart from its deploy.
use orascout.Base.{
  ◌≡◌, refl, ◌⊎◌, inl, inr, Option, none, some, List, ◌∷◌, ◌++◌, Result, ok, err, Bytes, eqb,
}
use orascout.Paths.{dir}
use orascout.Annotations.{parse}
use orascout.Config.{RepoRef}
use orascout.Deploy.Contained.{Permitted}
use orascout.Host.{
  Call, Act, done, call, OsResult, mkdir_all, write_file, file_store, new_repository,
  fetch_reference, read_body,
}
use orascout.Host.Runs.{Calls, Calls-after, Calls-bind, Calls-if}
use orascout.Registry.{split_ref}
use orascout.Registry.Client.{of_ref, os, repo_and_tag, resolve_digest, fetch_annotations, pull}
use orascout.State.{StateError, Entry, FileShape, tmp_of, get}
use orascout.State.Program.{
  or_error, os as save_os, set_program, set_entries, save_program, marshalled,
}
use orascout.Watcher.{
  Libraries, Watcher, CycleError, check, wrapped, plan, artifact_dir, persist, digest_of,
}

module _ (h : Libraries) (w : Watcher) (ref : RepoRef) where
  -- The paths that the cycle itself writes to: the directory of the artifact and the state file with its
  -- directory and its temporary file.
  abbrev pub IsOwn : Bytes → Type 0
  IsOwn p =
      (p ≡ artifact_dir h w ref)
      ⊎ ((p ≡ dir w.store.path) ⊎ ((p ≡ tmp_of w.store.path) ⊎ (p ≡ w.store.path)))

  -- A call of the cycle itself, which removes only the directory of the artifact.
  abbrev pub IsOwnCall : Call → Type 0
  IsOwnCall = Permitted IsOwn (λ p. p ≡ artifact_dir h w ref)

  abbrev pub Keeps : {A : Type 0} → Act A → Type 0
  Keeps = Calls IsOwnCall

  repo_and_tag-Keeps : (ref' : Bytes) → Keeps (repo_and_tag w.client ref')
  unfolding repo_and_tag
  repo_and_tag-Keeps ref' = Calls-bind IsOwnCall (done (of_ref (split_ref ref'))) _ tt (λ r.
      Calls-bind IsOwnCall (os (call (new_repository (r.host ++ b'/' ∷ r.path)))) _ (tt, λ x _. tt)
        (λ _. tt))

  pub check-Keeps :
      {E A : Type 0} (f : E → CycleError) (m : Act (Result E A)) → Keeps m → Keeps (check f m)
  check-Keeps f m k = Calls-after IsOwnCall m (λ r. done (wrapped f r)) k (λ r. tt)

  resolve_digest-Keeps : Keeps (resolve_digest w.client ref.full_ref)
  unfolding resolve_digest
  resolve_digest-Keeps =
      Calls-bind IsOwnCall (repo_and_tag w.client ref.full_ref) _ (repo_and_tag-Keeps ref.full_ref)
        (λ rt. (tt, λ x _. tt))

  fetch_annotations-Keeps : Keeps (fetch_annotations h.decode_manifest w.client ref.full_ref)
  unfolding fetch_annotations
  fetch_annotations-Keeps =
      Calls-bind IsOwnCall (repo_and_tag w.client ref.full_ref) _ (repo_and_tag-Keeps ref.full_ref)
        (λ rt.
          Calls-bind IsOwnCall (os (call (fetch_reference rt.0 rt.1))) _ (tt, λ x _. tt)
            (λ _. Calls-bind IsOwnCall (os (call read_body)) _ (tt, λ x _. tt) (λ _. tt)))

  pub plan-Keeps : Keeps (plan h w ref)
  unfolding plan
  plan-Keeps =
      Calls-bind IsOwnCall (check CycleError.resolve_failed (resolve_digest w.client ref.full_ref))
        _
        (check-Keeps CycleError.resolve_failed (resolve_digest w.client ref.full_ref)
          resolve_digest-Keeps)
        (λ digest. Calls-if IsOwnCall (eqb digest (digest_of (get w.store ref.full_ref))) _ _ tt (
          Calls-bind IsOwnCall
            (check CycleError.fetch_failed
              (fetch_annotations h.decode_manifest w.client ref.full_ref))
            _
            (check-Keeps CycleError.fetch_failed
              (fetch_annotations h.decode_manifest w.client ref.full_ref) fetch_annotations-Keeps)
            (λ raw.
              Calls-bind IsOwnCall
                (check CycleError.bad_annotations (done (parse h.parse_duration raw))) _ tt
                (λ spec. tt))))

  pub pull-Keeps : Keeps (pull w.client ref.full_ref (artifact_dir h w ref))
  unfolding pull
  pull-Keeps =
      Calls-bind IsOwnCall (os (call (mkdir_all (artifact_dir h w ref) 493))) _
        (inl refl, λ x _. tt)
        (λ _.
          Calls-bind IsOwnCall (repo_and_tag w.client ref.full_ref) _
            (repo_and_tag-Keeps ref.full_ref)
            (λ rt.
              Calls-bind IsOwnCall (os (call (file_store (artifact_dir h w ref)))) _ (tt, λ x _. tt)
                (λ _. (inl refl, λ x _. tt))))

  or_error-Keeps : {A : Type 0} (e : StateError) (r : OsResult A) → Keeps (or_error e r)
  or_error-Keeps e (ok a) = tt
  or_error-Keeps e (err x) = tt

  marshalled-Keeps : (text : Option Bytes) → Keeps (marshalled h.marshal text)
  marshalled-Keeps none = tt
  marshalled-Keeps (some buf) = tt

  save_program-Keeps :
      (shape : FileShape)
      → Keeps (save_program h.marshal (record { path = w.store.path; shape = shape }))
  unfolding save_program
  save_program-Keeps shape =
      Calls-bind IsOwnCall
        (save_os StateError.mkdir_failed (call (mkdir_all (dir w.store.path) 493))) _
        (inr (inl refl), λ r _. or_error-Keeps StateError.mkdir_failed r)
        (λ _.
          Calls-bind IsOwnCall (marshalled h.marshal (h.marshal shape)) _
            (marshalled-Keeps (h.marshal shape))
            (λ buf.
              Calls-bind IsOwnCall
                (save_os StateError.write_failed (call (write_file (tmp_of w.store.path) buf))) _
                (inr (inr (inl refl)), λ r _. or_error-Keeps StateError.write_failed r)
                (λ _. (
                  (inr (inr (inl refl)), inr (inr (inr refl))),
                  λ r _. or_error-Keeps StateError.rename_failed r,
                ))))

  pub set_entries-Keeps :
      (e : Entry) (o : Option (List (Bytes × Entry)))
      → Keeps (set_entries h.marshal w.store ref.full_ref e o)
  set_entries-Keeps e none = tt
  set_entries-Keeps e (some entries) =
      let shape : FileShape = record {
        schema = w.store.shape.schema;
        entries = some ((ref.full_ref, e) ∷ entries);
      } in
      Calls-after IsOwnCall (save_program h.marshal (record { path = w.store.path; shape = shape }))
        _ (save_program-Keeps shape) (λ _. tt)

  pub persist-Keeps : (r : Result CycleError (Option Entry)) → Keeps (persist h w ref r)
  unfolding set_program
  persist-Keeps (err e) = tt
  persist-Keeps (ok none) = tt
  persist-Keeps (ok (some e)) =
      Calls-after IsOwnCall (set_program h.marshal w.store ref.full_ref e) _
        (set_entries-Keeps e w.store.shape.entries) (λ _. tt)
