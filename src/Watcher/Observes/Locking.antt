-- ===== src/Watcher/Observes/Locking.antt =====
-- Taking and releasing a lock touches the directory of its file and the file alone.
use orascout.Base.{ℕ, ◌≡◌, refl, Bool, true, false, Option, none, some, ok, err, Bytes, is_empty}
use orascout.Paths.{dir}
use orascout.Base.Int.{ℤ, eqb_ℤ, pos}
use orascout.Strings.{trim_space}
use orascout.Strconv.{atoi}
use orascout.Host.{
  OsResult, call, mkdir_all, create_new, remove, read_file, exists, not_exist, failed,
}
use orascout.Host.Ensures.{Ensures, Ensures-after, Ensures-if, Ensures-bind, OkHas, AnyReply}
use orascout.Lockfile.{
  LockError, mkdir_failed, read_failed, remove_failed, reopen_failed, Lock, acquire, release,
  write_pid, pid_written, is_stale, is_stale_text, is_stale_pid, reclaim, created, or_error, os,
  succeed,
}
use orascout.Watcher.Observes.{Observes, Anything}

-- The lock that an attempt gives.
abbrev pub IsHeld : Bytes → Lock → Type 0
IsHeld path l = (l.path ≡ path) × (l.is_open ≡ true)

module _ (path : Bytes) where
  -- A call whose error is turned into one of the lock.
  os-Allowed :
      {A : Type 0} (e : LockError) (r : OsResult A)
      → Ensures (Observes path) AnyReply (OkHas Anything) (or_error e r)
  os-Allowed e (ok a) = tt
  os-Allowed e (err f) = tt

  pid_written-Observes :
      (r : OsResult (Unit {0}))
      → Ensures (Observes path) AnyReply (OkHas (IsHeld path)) (pid_written path r)
  pid_written-Observes (ok u) = (refl, refl)
  pid_written-Observes (err f) = (refl, λ _ _. (refl, λ _ _. tt))

  write_pid-Observes :
      (pid : ℕ) → Ensures (Observes path) AnyReply (OkHas (IsHeld path)) (write_pid pid path)
  unfolding write_pid
  write_pid-Observes pid = (refl, λ r _. pid_written-Observes r)

  is_stale_pid-Observes :
      (self : ℕ) (pid : Option ℤ)
      → Ensures (Observes path) AnyReply Anything (is_stale_pid self pid)
  is_stale_pid-Observes self none = tt
  is_stale_pid-Observes self (some pid) =
      Ensures-if (Observes path) AnyReply Anything (eqb_ℤ pid (pos self)) _ _ (λ _. tt)
        (λ _. (tt, λ _ _. tt))

  is_stale-Observes :
      (self : ℕ) → Ensures (Observes path) AnyReply (OkHas Anything) (is_stale self path)
  unfolding is_stale
  is_stale-Observes self =
      Ensures-bind (Observes path) AnyReply Anything Anything
        (os read_failed (call (read_file path))) _ (refl, λ r _. os-Allowed read_failed r)
        (λ raw _.
          Ensures-after (Observes path) AnyReply Anything (OkHas Anything)
            (is_stale_text self (trim_space raw)) succeed
            (Ensures-if (Observes path) AnyReply Anything (is_empty (trim_space raw)) _ _ (λ _. tt)
              (λ _. is_stale_pid-Observes self (atoi (trim_space raw))))
            (λ _ _. tt))

  reclaim-Observes :
      (pid : ℕ) (stale : Bool)
      → Ensures (Observes path) AnyReply (OkHas (IsHeld path)) (reclaim pid path stale)
  reclaim-Observes pid false = tt
  reclaim-Observes pid true =
      Ensures-bind (Observes path) AnyReply Anything (IsHeld path)
        (os remove_failed (call (remove path))) _ (refl, λ r _. os-Allowed remove_failed r)
        (λ _ _.
          Ensures-bind (Observes path) AnyReply Anything (IsHeld path)
            (os reopen_failed (call (create_new path))) _ (refl, λ r _. os-Allowed reopen_failed r)
            (λ _ _. write_pid-Observes pid))

  created-Observes :
      (pid : ℕ) (r : OsResult (Unit {0}))
      → Ensures (Observes path) AnyReply (OkHas (IsHeld path)) (created pid path r)
  created-Observes pid (ok u) = write_pid-Observes pid
  created-Observes pid (err exists) =
      Ensures-bind (Observes path) AnyReply Anything (IsHeld path) (is_stale pid path)
        (reclaim pid path) (is_stale-Observes pid) (λ stale _. reclaim-Observes pid stale)
  created-Observes pid (err not_exist) = tt
  created-Observes pid (err failed) = tt

  pub acquire-Observes :
      (pid : ℕ) → Ensures (Observes path) AnyReply (OkHas (IsHeld path)) (acquire pid path)
  unfolding acquire
  acquire-Observes pid =
      Ensures-bind (Observes path) AnyReply Anything (IsHeld path)
        (os mkdir_failed (call (mkdir_all (dir path) 493))) _
        (refl, λ r _. os-Allowed mkdir_failed r) (λ _ _. (refl, λ r _. created-Observes pid r))

  pub release-Observes :
      (l : Lock) → l.path ≡ path → Ensures (Observes path) AnyReply Anything (release l)
  unfolding release
  release-Observes l e =
      Ensures-if (Observes path) AnyReply Anything l.is_open _ _ (λ _. (e, λ _ _. (e, λ _ _. tt)))
        (λ _. tt)
