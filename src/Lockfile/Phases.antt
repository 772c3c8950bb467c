-- ===== src/Lockfile/Phases.antt =====
-- The calls of Acquire by phase.
use orascout.Base.{
  ℕ, ◌≡◌, ◌<◌, ◌^◌, refl, sym, Bool, true, false, Result, ok, err, Bytes, subst, arith,
}
use orascout.Strings.{trim_space}
use orascout.Host.{
  on_ok, failed, Act, done, after, call, OsResult, not_exist, exists, ◌>>=◌, mkdir_all, create_new,
  remove, read_file,
}
use orascout.Paths.{dir}
use orascout.Lockfile.{
  os, or_error, LockError, Try, acquire, write_pid, pid_written, is_stale, is_stale_text, reclaim,
  created, succeed,
}
use orascout.Lockfile.Staleness.{is_stale_text-printed, is_stale_pid-own, is_stale_pid-other}
use orascout.Lockfile.Guarded.{
  moved, OkIn, Owns, Anything, Phase, outside, owning, making, creating, writing, closing, removing,
  reading, signalling, Guarded, Guarded-after, Reads, Moves,
}

module _ (IsRunning : ℕ → Type 0) (lock : Bytes) (p : ℕ)
    (small : (q : ℕ) → IsRunning q → q < 2 ^ 63) where
  abbrev Follows : {A : Type 0} → (Phase → A → Type 0) → Phase → Act A → Type 0
  Follows = Guarded IsRunning lock p

  or_error-Follows :
      {A : Type 0} (e : LockError) (ph : Phase) (r : OsResult A)
      → Follows (OkIn Anything) ph (after (done r) (or_error e))
  or_error-Follows e ph (ok a) = tt
  or_error-Follows e ph (err f) = tt

  pid_written-Follows :
      (r : OsResult (Unit {0})) → Follows (OkIn (Owns lock)) owning (pid_written lock r)
  pid_written-Follows (ok u) = (refl, refl)
  pid_written-Follows (err e) = (
    closing,
    λ _ ph same.
        moved IsRunning lock p (OkIn (Owns lock))
          (after (call (remove lock)) (λ _. done (err LockError.write_failed))) same
          (removing, λ _ _ _. tt),
  )

  write_pid-Follows : Follows (OkIn (Owns lock)) owning (write_pid p lock)
  unfolding write_pid
  write_pid-Follows = (
    writing,
    λ r ph same.
        moved IsRunning lock p (OkIn (Owns lock)) (pid_written lock r) same (pid_written-Follows r),
  )

  -- Only the owner finds the file stale.
  abbrev Judged : Phase → Bool → Type 0
  Judged ph stale = stale ≡ true → ph ≡ owning

  is_stale_text-Follows :
      (running : IsRunning p) (ph : Phase) (text : Bytes)
      → Reads IsRunning lock p ph text
      → Follows Judged ph (is_stale_text p (trim_space text))
  is_stale_text-Follows running outside text (q, alive, other, e) =
      rw (e, is_stale_text-printed p q (small q alive), is_stale_pid-other p q other)
        (signalling q alive, λ r ph moves stale. ground (arith, moves.1, stale))
  is_stale_text-Follows running owning text e =
      rw (e, is_stale_text-printed p p (small p running), is_stale_pid-own p) (λ _. refl)

  Follows-bind :
      {A B : Type 0} (Q : Phase → A → Type 0) (R : Phase → B → Type 0) (ph : Phase) (m : Try A)
      (f : A → Try B)
      → Follows (OkIn Q) ph m
      → ((ph' : Phase) (a : A) → Q ph' a → Follows (OkIn R) ph' (f a))
      → Follows (OkIn R) ph (m >>= f)
  Follows-bind {A} Q R ph m f h k =
      Guarded-after IsRunning lock p (OkIn Q) (OkIn R) ph m (on_ok f) h each
    where
      each :
          (ph' : Phase) (r : Result LockError A) → OkIn Q ph' r → Follows (OkIn R) ph' (on_ok f r)
      each ph' (ok a) q = k ph' a q
      each ph' (err e) q = tt

  read-Follows :
      (ph : Phase)
      → Follows
          (OkIn (Reads IsRunning lock p))
          ph
          (os LockError.read_failed (call (read_file lock)))
  read-Follows ph = (reading, λ r ph' moves. each r ph' moves)
    where
      each :
          (r : OsResult Bytes) (ph' : Phase)
          → Moves IsRunning lock p ph (read_file lock) r ph'
          → Follows
              (OkIn (Reads IsRunning lock p))
              ph'
              (after (done r) (or_error LockError.read_failed))
      each (ok text) ph' (same, reads) = subst (λ x. Reads IsRunning lock p x text) (sym same) reads
      each (err e) ph' moves = tt

  is_stale-Follows : IsRunning p → (ph : Phase) → Follows (OkIn Judged) ph (is_stale p lock)
  unfolding is_stale
  is_stale-Follows running ph =
      Follows-bind (Reads IsRunning lock p) Judged ph
        (os LockError.read_failed (call (read_file lock))) _ (read-Follows ph)
        (λ ph' text reads.
          Guarded-after IsRunning lock p Judged (OkIn Judged) ph'
            (is_stale_text p (trim_space text)) succeed
            (is_stale_text-Follows running ph' text reads) (λ _ _ j. j))

  create-Follows :
      (running : IsRunning p) (e : LockError) (ph : Phase)
      → Follows (OkIn (λ ph' u. ph' ≡ owning)) ph (os e (call (create_new lock)))
  create-Follows running e ph = (creating running, λ r ph' moves. each r ph' moves)
    where
      each :
          (r : OsResult (Unit {0})) (ph' : Phase)
          → Moves IsRunning lock p ph (create_new lock) r ph'
          → Follows (OkIn (λ ph' u. ph' ≡ owning)) ph' (after (done r) (or_error e))
      each (ok u) ph' same = same
      each (err e) ph' same = tt

  write_pid_owning : (ph : Phase) → ph ≡ owning → Follows (OkIn (Owns lock)) ph (write_pid p lock)
  write_pid_owning ph same =
      moved IsRunning lock p (OkIn (Owns lock)) (write_pid p lock) same write_pid-Follows

  reclaim-Follows :
      IsRunning p
      → (ph : Phase) (stale : Bool) → Judged ph stale
      → Follows (OkIn (Owns lock)) ph (reclaim p lock stale)
  reclaim-Follows running ph false j = tt
  reclaim-Follows running ph true j =
      moved IsRunning lock p (OkIn (Owns lock))
        (os LockError.remove_failed (call (remove lock)) >>= λ _.
          os LockError.reopen_failed (call (create_new lock)) >>= λ _. write_pid p lock)
        (j refl)
        (Follows-bind Anything (Owns lock) owning (os LockError.remove_failed (call (remove lock)))
          _ (removing, λ r ph' _. or_error-Follows LockError.remove_failed ph' r)
          (λ ph' u _.
            Follows-bind (λ x u. x ≡ owning) (Owns lock) ph'
              (os LockError.reopen_failed (call (create_new lock))) _
              (create-Follows running LockError.reopen_failed ph')
              (λ ph'' u same. write_pid_owning ph'' same)))

  created-Follows :
      IsRunning p
      → (ph ph' : Phase) (r : OsResult (Unit {0}))
      → Moves IsRunning lock p ph (create_new lock) r ph'
      → Follows (OkIn (Owns lock)) ph' (created p lock r)
  created-Follows running ph ph' (ok u) same = write_pid_owning ph' same
  created-Follows running ph ph' (err exists) same =
      Follows-bind Judged (Owns lock) ph' (is_stale p lock) (reclaim p lock)
        (is_stale-Follows running ph') (reclaim-Follows running)
  created-Follows running ph ph' (err not_exist) same = tt
  created-Follows running ph ph' (err failed) same = tt

  pub acquire-Follows : IsRunning p → (ph : Phase) → Follows (OkIn (Owns lock)) ph (acquire p lock)
  unfolding acquire
  acquire-Follows running ph =
      Follows-bind Anything (Owns lock) ph
        (os LockError.mkdir_failed (call (mkdir_all (dir lock) 493))) _
        (making, λ r ph' _. or_error-Follows LockError.mkdir_failed ph' r)
        (λ ph' u _. (creating running, λ r ph'' moves. created-Follows running ph' ph'' r moves))
