-- ===== src/Watcher/Settled.antt =====
-- A cycle of a repository whose digest is the recorded one.
use orascout.Base.{
  ℕ, ◌≡◌, refl, sym, ◌∙◌, Bool, Option, none, some, List, [], ◌∷◌, ◌++◌, All, Result, ok, err,
  Bytes, eqb, ne_of_eqb,
}
use orascout.Config.{RepoRef}
use orascout.State.{Entry, Store, get}
use orascout.Host.{OsResult, done, call, ◌>>=◌, Call, Reply, new_repository, resolve}
use orascout.Host.Runs.{Event, Runs}
use orascout.Registry.{Ref, split_ref}
use orascout.Registry.Client.{
  Client, RegistryError, of_os, os, of_ref, repo_and_tag, resolve_digest,
}
use orascout.Watcher.{
  Libraries, Watcher, CycleError, Change, resolve_failed, wrapped, check, digest_of, plan,
  deploy_plan, persist, cycle_one,
}
use orascout.Host.Ensures.{Ensures, Ensures-after, Ensures-if, Ensures-bind, Ensures-Runs, OkHas}
use orascout.Watcher.Observes.{Anything, os-Observes}
use orascout.Watcher.Observes.DryRun.{NotDeployed}

-- The registry resolves every tag to the digest, or fails to.
abbrev pub Answers : Bytes → (c : Call) → Reply c → Type 0
Answers digest (resolve r tag) reply = (d : Bytes) → reply ≡ ok d → d ≡ digest
Answers digest _ reply = Unit

abbrev pub IsResolving : Call → Type 0
IsResolving (resolve r tag) = Unit
IsResolving (new_repository name) = Unit
IsResolving _ = ⊥

module _ (digest : Bytes) where
  -- A result that is the digest, if it is one.
  abbrev Gives : Result RegistryError Bytes → Type 0
  Gives = OkHas (λ d. d ≡ digest)

  repo_and_tag-Resolves :
      (c : Client) (ref : Bytes)
      → Ensures IsResolving (Answers digest) (OkHas Anything) (repo_and_tag c ref)
  unfolding repo_and_tag
  repo_and_tag-Resolves c ref =
      Ensures-bind IsResolving (Answers digest) Anything Anything (done (of_ref (split_ref ref))) _
        (known (of_ref (split_ref ref)))
        (λ r _.
          Ensures-bind IsResolving (Answers digest) Anything Anything
            (os (call (new_repository (r.host ++ b'/' ∷ r.path)))) _ (tt, λ x _. os-Observes [] x)
            (λ _ _. tt))
    where
      known : (r : Result RegistryError Ref) → OkHas Anything r
      known (ok r) = tt
      known (err e) = tt

  answered : (r : OsResult Bytes) → ((d : Bytes) → r ≡ ok d → d ≡ digest) → Gives (of_os r)
  answered (ok d) k = k d refl
  answered (err e) k = tt

  resolve_digest-Resolves :
      (c : Client) (ref : Bytes) → Ensures IsResolving (Answers digest) Gives (resolve_digest c ref)
  unfolding resolve_digest
  resolve_digest-Resolves c ref =
      Ensures-bind IsResolving (Answers digest) Anything (λ d. d ≡ digest) (repo_and_tag c ref) _
        (repo_and_tag-Resolves c ref) (λ rt _. (tt, λ r k. answered r k))

  module _ (h : Libraries) (w : Watcher) (ref : RepoRef)
      (settled : digest_of (get w.store ref.full_ref) ≡ digest) where
    plan-Resolves : Ensures IsResolving (Answers digest) (OkHas (λ o. o ≡ none)) (plan h w ref)
    unfolding plan
    plan-Resolves =
        Ensures-bind IsResolving (Answers digest) (λ d. d ≡ digest) (λ o. o ≡ none)
          (check resolve_failed (resolve_digest w.client ref.full_ref)) _
          (Ensures-after IsResolving (Answers digest) Gives (OkHas (λ d. d ≡ digest))
            (resolve_digest w.client ref.full_ref) (λ r. done (wrapped resolve_failed r))
            (resolve_digest-Resolves w.client ref.full_ref) passed)
          (λ d e.
            Ensures-if IsResolving (Answers digest) (OkHas (λ o. o ≡ none))
              (eqb d (digest_of (get w.store ref.full_ref))) _ _ (λ _. refl)
              (λ other. absurd (ne_of_eqb d _ other (e ∙ sym settled))))
      where
        passed :
            (r : Result RegistryError Bytes)
            → Gives r
            → OkHas (λ d. d ≡ digest) (wrapped resolve_failed r)
        passed (ok d) e = e
        passed (err x) e = tt

    deploy_plan-Resolves :
        (fuel : ℕ) (o : Option Change)
        → o ≡ none
        → Ensures IsResolving (Answers digest) (OkHas (λ x. x ≡ none)) (deploy_plan h fuel w ref o)
    deploy_plan-Resolves fuel none e = refl
    deploy_plan-Resolves fuel (some c) e = cc e

    persist-Resolves :
        (r : Result CycleError (Option Entry))
        → OkHas (λ x. x ≡ none) r
        → Ensures IsResolving (Answers digest) (NotDeployed w.store) (persist h w ref r)
    persist-Resolves (ok none) e = ((λ p. cc p), refl)
    persist-Resolves (ok (some x)) e = cc e
    persist-Resolves (err x) e = ((λ p. cc p), refl)

    cycle_one-Resolves :
        (fuel : ℕ)
        → Ensures IsResolving (Answers digest) (NotDeployed w.store) (cycle_one h fuel w ref)
    unfolding cycle_one
    cycle_one-Resolves fuel =
        Ensures-after IsResolving (Answers digest) (OkHas (λ x. x ≡ none)) (NotDeployed w.store)
          (plan h w ref >>= deploy_plan h fuel w ref) (persist h w ref)
          (Ensures-bind IsResolving (Answers digest) (λ o. o ≡ none) (λ x. x ≡ none) (plan h w ref)
            (deploy_plan h fuel w ref) plan-Resolves (deploy_plan-Resolves fuel))
          persist-Resolves

    -- While the registry answers with the recorded digest, or fails, a cycle of the repository only
    -- resolves its tag. It fetches, removes, pulls and deploys nothing, leaves the store as it is, and
    -- claims no deploy.
    pub cycle_one-settled :
        (fuel : ℕ) {x : Result CycleError Bool × Store} {events : List Event}
        → Runs x (cycle_one h fuel w ref) events
        → All (λ e. Answers digest e.request e.reply) events
        → All (λ e. IsResolving e.request) events × NotDeployed w.store x
    cycle_one-settled fuel runs answers =
        Ensures-Runs IsResolving (Answers digest) (NotDeployed w.store) (cycle_one h fuel w ref)
          (cycle_one-Resolves fuel) runs answers
