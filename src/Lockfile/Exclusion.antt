-- ===== src/Lockfile/Exclusion.antt =====
-- At most one process holds the lock, however the calls of the processes interleave.
use orascout.Base.{
  ℕ, ◌≡◌, ◌≢◌, ◌<◌, ◌^◌, refl, sym, ◌∙◌, none, some, List, All, Bytes, subst, arith, ◌==◌, inl, inr,
  Bool-cases,
}
use orascout.Host.{Act, ask, Call, Reply, poll}
use orascout.Lockfile.Guarded.{Phase, outside, owning, Allowed, polling, Guarded, Anything}
use orascout.Lockfile.Rounds.{rounds-Follows}
use orascout.Lockfile.Effects.{owner_of, InPhase, Undisturbed, step-Effect}
use orascout.Lockfile.System.{
  File, System, Moment, Serves, Steps, start, step, initial, advance, IsInside,
}

no_owner : (p : ℕ) → owner_of none ≢ some p
no_owner p e = cc e

module _ (IsRunning : ℕ → Type 0) (lock : Bytes) where
  -- The program fits the phase that the file gives.
  record IsFit (file : File) (p : ℕ) (m : Act (Unit {0})) : Type 0 where
    phase : Phase
    here : InPhase phase p (owner_of file)
    follows : Guarded IsRunning lock p Anything phase m

  record IsSound (s : System) : Type 0 where
    fit : (p : ℕ) → IsFit s.file p (s.programs p)
    running : (q : ℕ) → owner_of s.file ≡ some q → IsRunning q

  advance-IsSound :
      (s : System) (p : ℕ) (c : Call) (k : Reply c → Act (Unit {0})) (r : Reply c) (file : File)
      → IsSound s
      → s.programs p ≡ ask c k
      → Serves lock p c r s.file file
      → Undisturbed IsRunning c r s.file
      → IsSound (advance s p (k r) file)
  advance-IsSound s p c k r file sound e serves calm =
      let own = sound.fit p in
      let (allowed, rest) = subst (Guarded IsRunning lock p Anything own.phase) e own.follows in
      let effect =
        step-Effect IsRunning lock p own.phase c r s.file file allowed own.here sound.running serves
          calm in
      record {
        fit = λ q. elim (Bool-cases (q == p)) [
          | inl same ↦
              let it : q ≡ p = ground (arith, same) in
              rw same (
                subst (λ x. IsFit file x (k r)) (sym it)
                  (record {
                    phase = effect.phase;
                    here = effect.inside;
                    follows = rest r effect.phase effect.moves;
                  }))
          | inr other ↦
              let apart : q ≢ p = ground (arith, other) in
              let fit = sound.fit q in
              rw other (record {
                phase = fit.phase;
                here = effect.others q apart fit.phase fit.here;
                follows = fit.follows;
              })
        ];
        running = effect.running;
      }

  Steps-IsSound :
      {s s' : System} {ms : List Moment}
      → Steps lock s ms s'
      → IsSound s
      → All (λ m. Undisturbed IsRunning m.request m.reply m.file) ms
      → IsSound s'
  Steps-IsSound start sound calm = sound
  Steps-IsSound (step p c k r file steps e serves) sound calm =
      advance-IsSound _ p c k r file (Steps-IsSound steps sound calm.1) e serves calm.0

  polling_phase : {p : ℕ} {ph : Phase} → Allowed IsRunning lock p ph poll → ph ≡ owning
  polling_phase polling = refl

  inside_owner : (s : System) (p : ℕ) → IsSound s → IsInside s p → owner_of s.file ≡ some p
  inside_owner s p sound (k, e) =
      let own = sound.fit p in
      let (allowed, rest) = subst (Guarded IsRunning lock p Anything own.phase) e own.follows in
      subst (λ ph. InPhase ph p (owner_of s.file)) (polling_phase allowed) own.here

module _ (lock : Bytes) (n : ℕ → ℕ) (small : (p : ℕ) → 0 < n p → p < 2 ^ 63) where
  abbrev pub IsRunning : ℕ → Type 0
  IsRunning p = 0 < n p

  initial-IsSound : IsSound IsRunning lock (initial lock n)
  initial-IsSound = record {
    fit = λ p. record {
      phase = outside;
      here = no_owner p;
      follows = rounds-Follows IsRunning lock p small (n p) outside (λ h. h);
    };
    running = λ q e. absurd (no_owner q e);
  }

  -- Of processes that run rounds with one lock file, which is not there at first, no two are between
  -- taking and releasing the lock at the same time, in any order of their calls and whichever calls
  -- fail. This asks that process ids are below 2^63, that the file is only read when the process id of
  -- its owner stands in it, and that signals reach all running processes.
  pub at_most_one :
      {ms : List Moment} {s : System}
      → Steps lock (initial lock n) ms s
      → All (λ m. Undisturbed IsRunning m.request m.reply m.file) ms
      → (p q : ℕ) → IsInside s p
      → IsInside s q
      → p ≡ q
  at_most_one {s = s} steps calm p q here there =
      let sound = Steps-IsSound IsRunning lock steps initial-IsSound calm in
      cc (
        sym (inside_owner IsRunning lock s p sound here)
        ∙ inside_owner IsRunning lock s q sound there)
