-- ===== src/Lockfile/Guarded.antt =====
-- Which calls a process makes while it owns the lock file and while it does not.
use orascout.Base.{err, sym, Result, subst, ℕ, ◌≡◌, ◌≢◌, true, ok, Bytes}
use orascout.Base.Int.{pos}
use orascout.Strconv.{print_int}
use orascout.Lockfile.{LockError, Lock}
use orascout.Host.{
  Act, done, ask, after, Call, Reply, mkdir_all, create_new, write, close, remove, read_file,
  signal, poll,
}

pub data Phase : Type 0 where
  outside owning : Phase

abbrev pub Anything : {A : Type 0} → Phase → A → Type 0
Anything ph a = Unit

-- A property of the value, in the phase at its end.
abbrev pub OkIn : {A : Type 0} → (Phase → A → Type 0) → Phase → Result LockError A → Type 0
OkIn Q ph (ok a) = Q ph a
OkIn Q ph (err e) = Unit

-- A lock is only had by the owner of the file.
abbrev pub Owns : Bytes → Phase → Lock → Type 0
Owns lock ph l = (ph ≡ owning) × (l.path ≡ lock)

module _ (IsRunning : ℕ → Type 0) (lock : Bytes) (p : ℕ) where
  -- The calls of a process in a phase.
  pub data Allowed : Phase → Call → Type 0 where
    making : {ph : Phase} {d : Bytes} {mode : ℕ} → Allowed ph (mkdir_all d mode)
    creating : {ph : Phase} → IsRunning p → Allowed ph (create_new lock)
    writing : Allowed owning (write lock (print_int p))
    closing : Allowed owning (close lock)
    removing : Allowed owning (remove lock)
    reading : {ph : Phase} → Allowed ph (read_file lock)
    signalling : (q : ℕ) → IsRunning q → Allowed outside (signal (pos q))
    polling : Allowed owning poll

  -- The texts that are read from the file: the process id of another process, or the own one.
  abbrev pub Reads : Phase → Bytes → Type 0
  Reads outside text = (q : ℕ) × IsRunning q × (q ≢ p) × (text ≡ print_int q)
  Reads owning text = text ≡ print_int p

  -- The phase after a call.
  abbrev pub Moves : Phase → (c : Call) → Reply c → Phase → Type 0
  Moves ph (create_new path) (ok u) ph' = ph' ≡ owning
  Moves ph (remove path) (ok u) ph' = ph' ≡ outside
  Moves ph (read_file path) (ok text) ph' = (ph' ≡ ph) × Reads ph text
  Moves ph (signal t) r ph' = (ph' ≡ ph) × (r ≡ true)
  Moves ph c r ph' = ph' ≡ ph

  -- All calls of the program are allowed in their phases, and the result fits the last phase.
  abbrev pub Guarded : {A : Type 0} → (Phase → A → Type 0) → Phase → Act A → Type 0
  Guarded Q ph (done a) = Q ph a
  Guarded Q ph (ask c k) =
      Allowed ph c × ((r : Reply c) (ph' : Phase) → Moves ph c r ph' → Guarded Q ph' (k r))

  pub Guarded-after :
      {A B : Type 0} (Q : Phase → A → Type 0) (R : Phase → B → Type 0) (ph : Phase) (m : Act A)
      (f : A → Act B)
      → Guarded Q ph m
      → ((ph' : Phase) (a : A) → Q ph' a → Guarded R ph' (f a))
      → Guarded R ph (after m f)
  Guarded-after Q R ph (done a) f h k = k ph a h
  Guarded-after Q R ph (ask c g) f h k =
      (h.0, λ r ph' moves. Guarded-after Q R ph' (g r) f (h.1 r ph' moves) k)

  pub moved :
      {A : Type 0} (Q : Phase → A → Type 0) (m : Act A) {ph ph' : Phase}
      → ph' ≡ ph
      → Guarded Q ph m
      → Guarded Q ph' m
  moved Q m e h = subst (λ x. Guarded Q x m) (sym e) h
