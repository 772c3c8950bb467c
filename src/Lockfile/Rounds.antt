-- ===== src/Lockfile/Rounds.antt =====
-- The calls of Release and of whole rounds by phase.
use orascout.Base.{
  zero, suc, ℕ, ◌≡◌, ◌<◌, ◌^◌, sym, Bool, true, false, Result, ok, err, Bytes, subst, arith,
  if◌then◌else◌,
}
use orascout.Host.{Act, done, after, call, close, remove}
use orascout.Lockfile.{removed, LockError, Lock, acquire, release}
use orascout.Lockfile.Guarded.{
  moved, OkIn, Owns, Anything, Phase, owning, closing, removing, polling, Guarded, Guarded-after,
}
use orascout.Lockfile.System.{visit, rounds}
use orascout.Lockfile.Phases.{acquire-Follows}

module _ (IsRunning : ℕ → Type 0) (lock : Bytes) (p : ℕ)
    (small : (q : ℕ) → IsRunning q → q < 2 ^ 63) where
  abbrev Follows : {A : Type 0} → (Phase → A → Type 0) → Phase → Act A → Type 0
  Follows = Guarded IsRunning lock p

  -- The two calls of a release.
  abbrev freeing : Bytes → Act (Result LockError (Unit {0}) × Lock)
  freeing path = after (call (close path)) (λ _.
      after (call (remove path)) (λ r. done (removed r, record { path = path; is_open = false })))

  freed-Follows : (path : Bytes) → path ≡ lock → Follows Anything owning (freeing path)
  freed-Follows path e = subst (λ x. Follows Anything owning (freeing x)) (sym e) own
    where
      own : Follows Anything owning (freeing lock)
      own = (
        closing,
        λ _ ph same.
            moved IsRunning lock p {A = Result LockError (Unit {0}) × Lock} Anything
              (after (call (remove lock))
                (λ r. done (removed r, record { path = lock; is_open = false })))
              same (removing, λ _ _ _. tt),
      )

  if-Follows :
      {A : Type 0} (Q : Phase → A → Type 0) (ph : Phase) (b : Bool) (m k : Act A)
      → Follows Q ph m
      → Follows Q ph k
      → Follows Q ph (if b then m else k)
  if-Follows Q ph true m k h g = h
  if-Follows Q ph false m k h g = g

  release-Follows : (l : Lock) → l.path ≡ lock → Follows Anything owning (release l)
  unfolding release
  release-Follows l e = if-Follows Anything owning l.is_open _ _ (freed-Follows l.path e) tt

  visit-Follows :
      (ph : Phase) (r : Result LockError Lock)
      → OkIn (Owns lock) ph r
      → Follows Anything ph (visit r)
  visit-Follows ph (err e) h = tt
  visit-Follows ph (ok l) (same, e) = moved IsRunning lock p Anything (visit (ok l)) same (
    polling,
    λ stopped ph' same'. moved IsRunning lock p Anything (after (release l) (λ r. done tt)) same' (
        Guarded-after IsRunning lock p Anything Anything owning (release l) _ (release-Follows l e)
          (λ _ _ _. tt)),
  )

  -- A process that runs rounds makes only the calls that its phase allows.
  pub rounds-Follows :
      (n : ℕ) (ph : Phase) → (0 < n → IsRunning p) → Follows Anything ph (rounds n p lock)
  unfolding rounds
  rounds-Follows zero ph h = tt
  rounds-Follows (suc n) ph h =
      let running = h (omega arith) in
      Guarded-after IsRunning lock p Anything Anything ph (after (acquire p lock) visit) _
        (Guarded-after IsRunning lock p (OkIn (Owns lock)) Anything ph (acquire p lock) visit
          (acquire-Follows IsRunning lock p small running ph) visit-Follows)
        (λ ph' u _. rounds-Follows n ph' (λ _. running))
