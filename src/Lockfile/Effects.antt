-- ===== src/Lockfile/Effects.antt =====
-- What one call of a process changes: its phase, and nothing for the others.
use orascout.Base.{
  ℕ, ◌≡◌, ◌≢◌, refl, sym, ap, ◌∙◌, true, Option, none, some, [], ok, err, Bytes, subst, arith, ◌==◌,
  inl, inr, Bool-cases,
}
use orascout.Base.Int.{pos}
use orascout.Strconv.{print_int}
use orascout.Host.{Call, Reply, create_new, remove, read_file, signal}
use orascout.Lockfile.Guarded.{
  Phase, outside, owning, Allowed, making, creating, writing, closing, removing, reading,
  signalling, polling, Reads, Moves,
}
use orascout.Lockfile.System.{Inode, File, Serves, put_text}

-- What the moments are trusted for: a file is only read once the process id of its owner stands in it,
-- and a running process can be signalled.
abbrev pub Undisturbed : (ℕ → Type 0) → (c : Call) → Reply c → File → Type 0
Undisturbed IsRunning (read_file path) (ok text) f =
    (i : Inode) → f ≡ some i → text ≡ print_int i.owner
Undisturbed IsRunning (signal t) r f = (q : ℕ) → IsRunning q → t ≡ pos q → r ≡ true
Undisturbed IsRunning c r f = Unit

abbrev pub owner_of : File → Option ℕ
owner_of none = none
owner_of (some i) = some i.owner

-- The phase of a process, by the owner of the file.
abbrev pub InPhase : Phase → ℕ → Option ℕ → Type 0
InPhase outside p o = o ≢ some p
InPhase owning p o = o ≡ some p

-- A file that a process made is its own.
taken-InPhase : (p q : ℕ) → q ≢ p → (ph : Phase) → InPhase ph q none → InPhase ph q (some p)
taken-InPhase p q n outside h = λ e. n (cc e)
taken-InPhase p q n owning h = cc h

-- Only its owner loses a file that is removed.
freed-InPhase : (p q : ℕ) → q ≢ p → (ph : Phase) → InPhase ph q (some p) → InPhase ph q none
freed-InPhase p q n outside h = λ e. cc e
freed-InPhase p q n owning h = absurd (n (cc h))

owner_of-put_text : (p : ℕ) (text : Bytes) (f : File) → owner_of (put_text p text f) ≡ owner_of f
owner_of-put_text p text none = refl
owner_of-put_text p text (some i) = elim (Bool-cases (i.owner == p)) [
  | inl own ↦ ground (arith, own)
  | inr other ↦ rw other refl
]

module _ (IsRunning : ℕ → Type 0) (lock : Bytes) where
  -- What a step of one process means for it and for the others.
  pub record Effect (p : ℕ) (ph : Phase) (c : Call) (r : Reply c) (f f' : File) : Type 0 where
    pub phase : Phase
    pub moves : Moves IsRunning lock p ph c r phase
    pub inside : InPhase phase p (owner_of f')
    pub others :
        (q : ℕ) → q ≢ p → (ph' : Phase) → InPhase ph' q (owner_of f) → InPhase ph' q (owner_of f')
    pub running : (q : ℕ) → owner_of f' ≡ some q → IsRunning q

  kept-Effect :
      (p : ℕ) (ph : Phase) (c : Call) (r : Reply c) (f f' : File)
      → owner_of f' ≡ owner_of f
      → Moves IsRunning lock p ph c r ph
      → InPhase ph p (owner_of f)
      → ((q : ℕ) → owner_of f ≡ some q → IsRunning q)
      → Effect p ph c r f f'
  kept-Effect p ph c r f f' e moves here alive = record {
    phase = ph;
    moves = moves;
    inside = subst (InPhase ph p) (sym e) here;
    others = λ q _ ph' h. subst (InPhase ph' q) (sym e) h;
    running = λ q h. alive q (sym e ∙ h);
  }

  created-Effect :
      (p : ℕ) (ph : Phase) (f f' : File)
      → IsRunning p
      → f ≡ none
      → f' ≡ some (record { owner = p; text = [] })
      → Effect p ph (create_new lock) (ok tt) f f'
  created-Effect p ph f f' alive e e' = record {
    phase = owning;
    moves = refl;
    inside = ap owner_of e';
    others = λ q n ph' h.
        subst (InPhase ph' q) (sym (ap owner_of e'))
          (taken-InPhase p q n ph' (subst (InPhase ph' q) (ap owner_of e) h));
    running = λ q h. let same : p ≡ q = cc (sym (ap owner_of e') ∙ h) in subst IsRunning same alive;
  }

  removed-Effect :
      (p : ℕ) (f f' : File)
      → owner_of f ≡ some p
      → f' ≡ none
      → Effect p owning (remove lock) (ok tt) f f'
  removed-Effect p f f' own e = record {
    phase = outside;
    moves = refl;
    inside = λ h. cc (sym (ap owner_of e) ∙ h);
    others = λ q n ph' h.
        subst (InPhase ph' q) (sym (ap owner_of e))
          (freed-InPhase p q n ph' (subst (InPhase ph' q) own h));
    running = λ q h. cc (sym (ap owner_of e) ∙ h);
  }

  Reads-owner :
      (p : ℕ) (ph : Phase) (f : File) (i : Inode) (text : Bytes)
      → InPhase ph p (owner_of f)
      → ((q : ℕ) → owner_of f ≡ some q → IsRunning q)
      → f ≡ some i
      → text ≡ print_int i.owner
      → Reads IsRunning lock p ph text
  Reads-owner p outside f i text here alive e t =
      (i.owner, alive i.owner (ap owner_of e), (λ same. here (ap owner_of e ∙ ap some same)), t)
  Reads-owner p owning f i text here alive e t =
      let same : i.owner ≡ p = cc (sym (ap owner_of e) ∙ here) in t ∙ ap print_int same

  pub step-Effect :
      (p : ℕ) (ph : Phase) (c : Call) (r : Reply c) (f f' : File)
      → Allowed IsRunning lock p ph c
      → InPhase ph p (owner_of f)
      → ((q : ℕ) → owner_of f ≡ some q → IsRunning q)
      → Serves lock p c r f f'
      → Undisturbed IsRunning c r f
      → Effect p ph c r f f'
  step-Effect p ph c r f f' making here alive serves calm =
      kept-Effect p ph c r f f' (ap owner_of serves) refl here alive
  step-Effect p ph c (ok u) f f' (creating running) here alive (_, e, e') calm =
      created-Effect p ph f f' running e e'
  step-Effect p ph c (err e) f f' (creating running) here alive serves calm =
      kept-Effect p ph c (err e) f f' (ap owner_of serves) refl here alive
  step-Effect p ph c (ok u) f f' writing here alive (_, e) calm =
      kept-Effect p owning c (ok u) f f' (ap owner_of e ∙ owner_of-put_text p (print_int p) f) refl
        here alive
  step-Effect p ph c (err x) f f' writing here alive (_, torn, e) calm =
      kept-Effect p owning c (err x) f f' (ap owner_of e ∙ owner_of-put_text p torn f) refl here
        alive
  step-Effect p ph c r f f' closing here alive serves calm =
      kept-Effect p ph c r f f' (ap owner_of serves) refl here alive
  step-Effect p ph c (ok u) f f' removing here alive (_, e) calm = removed-Effect p f f' here e
  step-Effect p ph c (err e) f f' removing here alive serves calm =
      kept-Effect p ph c (err e) f f' (ap owner_of serves) refl here alive
  step-Effect p ph c (ok text) f f' reading here alive (_, i, e, t, same) calm =
      kept-Effect p ph c (ok text) f f' (ap owner_of same)
        (refl, Reads-owner p ph f i text here alive e (calm i e)) here alive
  step-Effect p ph c (err e) f f' reading here alive serves calm =
      kept-Effect p ph c (err e) f f' (ap owner_of serves) refl here alive
  step-Effect p ph c r f f' (signalling q running) here alive serves calm =
      kept-Effect p outside c r f f' (ap owner_of serves) (refl, calm q running refl) here alive
  step-Effect p ph c r f f' polling here alive serves calm =
      kept-Effect p ph c r f f' (ap owner_of serves) refl here alive
