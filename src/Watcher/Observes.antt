-- ===== src/Watcher/Observes.antt =====
-- What a dry run does: it takes and releases the lock and reads the registry.
pub mod Locking
pub mod DryRun
use orascout.Base.{◌≡◌, Option, ◌∷◌, ◌++◌, take, Result, ok, err, Bytes}
use orascout.Paths.{dir}
use orascout.Annotations.{RawAnnotations}
use orascout.Host.{
  OsResult, done, call, Call, read_file, mkdir_all, create_new, write, remove, close, signal, poll,
  new_repository, resolve, fetch_reference, read_body,
}
use orascout.Host.Ensures.{Ensures, Ensures-bind, OkHas, AnyReply, All-AnyReply}
use orascout.Registry.{split_ref}
use orascout.Registry.Client.{
  Client, of_os, os, of_ref, repo_and_tag, resolve_digest, fetch_annotations, manifest_limit,
  or_none,
}

-- The calls that take and release a lock, ask for cancellation and read the registry.
abbrev pub Observes : Bytes → Call → Type 0
Observes lock (mkdir_all p mode) = p ≡ dir lock
Observes lock (create_new p) = p ≡ lock
Observes lock (write p text) = p ≡ lock
Observes lock (close p) = p ≡ lock
Observes lock (remove p) = p ≡ lock
Observes lock (read_file p) = p ≡ lock
Observes lock (signal pid) = Unit
Observes lock poll = Unit
Observes lock (new_repository name) = Unit
Observes lock (resolve r tag) = Unit
Observes lock (fetch_reference r tag) = Unit
Observes lock read_body = Unit
Observes lock _ = ⊥

abbrev pub Anything {ℓ} : {A : Type ℓ} → A → Type 0
Anything a = Unit

module _ (lock : Bytes) where
  -- A call of the registry that may fail.
  pub os-Observes : {A : Type 0} (r : OsResult A) → OkHas Anything (of_os r)
  os-Observes (ok a) = tt
  os-Observes (err e) = tt

  pub done-Observes :
      {E A : Type 0} (r : Result E A) → Ensures (Observes lock) AnyReply (OkHas Anything) (done r)
  done-Observes (ok a) = tt
  done-Observes (err e) = tt

  repo_and_tag-Observes :
      (c : Client) (ref : Bytes)
      → Ensures (Observes lock) AnyReply (OkHas Anything) (repo_and_tag c ref)
  unfolding repo_and_tag
  repo_and_tag-Observes c ref =
      Ensures-bind (Observes lock) AnyReply Anything Anything (done (of_ref (split_ref ref))) _
        (done-Observes (of_ref (split_ref ref)))
        (λ r _.
          Ensures-bind (Observes lock) AnyReply Anything Anything
            (os (call (new_repository (r.host ++ b'/' ∷ r.path)))) _ (tt, λ x _. os-Observes x)
            (λ _ _. tt))

  pub resolve_digest-Observes :
      (c : Client) (ref : Bytes)
      → Ensures (Observes lock) AnyReply (OkHas Anything) (resolve_digest c ref)
  unfolding resolve_digest
  resolve_digest-Observes c ref =
      Ensures-bind (Observes lock) AnyReply Anything Anything (repo_and_tag c ref) _
        (repo_and_tag-Observes c ref) (λ rt _. (tt, λ x _. os-Observes x))

  pub fetch_annotations-Observes :
      (decode : Bytes → Option (Option RawAnnotations)) (c : Client) (ref : Bytes)
      → Ensures (Observes lock) AnyReply (OkHas Anything) (fetch_annotations decode c ref)
  unfolding fetch_annotations
  fetch_annotations-Observes decode c ref =
      Ensures-bind (Observes lock) AnyReply Anything Anything (repo_and_tag c ref) _
        (repo_and_tag-Observes c ref)
        (λ rt _.
          Ensures-bind (Observes lock) AnyReply Anything Anything
            (os (call (fetch_reference rt.0 rt.1))) _ (tt, λ x _. os-Observes x)
            (λ _ _.
              Ensures-bind (Observes lock) AnyReply Anything Anything (os (call read_body)) _
                (tt, λ x _. os-Observes x)
                (λ body _. done-Observes (or_none (decode (take manifest_limit body))))))
