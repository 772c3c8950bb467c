-- ===== src/Lockfile.antt =====
-- internal/lockfile/lockfile.go: the lock file of a cycle, as programs of calls. The result of
-- os.Getpid is an argument.
pub mod System
pub mod Guarded
pub mod Phases
pub mod Rounds
pub mod Effects
pub mod Exclusion
pub mod Staleness
pub mod Held
pub mod Tests
use orascout.Base.{
  ℕ, Bool, true, false, not, Option, none, some, if◌then◌else◌, Result, ok, err, Bytes, is_empty,
}
use orascout.Base.Int.{ℤ, pos, eqb_ℤ}
use orascout.Strings.{trim_space}
use orascout.Strconv.{atoi, print_int}
use orascout.Paths.{dir}
use orascout.Host.{
  not_exist, exists, OsResult, Act, done, after, call, ◌>>=◌, ◌>>◌, mkdir_all, create_new, write,
  close, remove, read_file, signal,
}

-- `locked` is `ErrLocked`; the others are the errors that wrap one of a call.
pub data LockError : Type 0 where
  locked mkdir_failed open_failed read_failed remove_failed reopen_failed write_failed : LockError

-- `Lock`, where `is_open` says that its file is not nil.
pub record Lock : Type 0 where
  pub path : Bytes
  pub is_open : Bool

abbrev pub Try : Type 0 → Type 0
Try A = Act (Result LockError A)

abbrev pub or_error : {A : Type 0} → LockError → OsResult A → Try A
or_error e (ok a) = done (ok a)
or_error e (err f) = done (err e)

-- `if err := call; err != nil { return e }`
abbrev pub os : {A : Type 0} → LockError → Act (OsResult A) → Try A
os e m = after m (or_error e)

-- After the write of the process id.
abbrev pub pid_written : Bytes → OsResult (Unit {0}) → Try Lock
pid_written path (ok u) = done (ok (record { path = path; is_open = true }))
pid_written path (err f) =
    after (call (close path)) (λ _. after (call (remove path)) (λ _. done (err write_failed)))

-- `writePID(f, path)`, where `f` is the file just created at the path.
unfoldable pub write_pid : ℕ → Bytes → Try Lock
write_pid pid path = after (call (write path (print_int pid))) (pid_written path)

-- `isStale` from the process id of the file. On Unix `os.FindProcess` does not fail.
abbrev pub is_stale_pid : ℕ → Option ℤ → Act Bool
is_stale_pid self none = done true
is_stale_pid self (some pid) =
    if eqb_ℤ pid (pos self)
    then done true
    else after (call (signal pid)) (λ alive. done (not alive))

abbrev pub is_stale_text : ℕ → Bytes → Act Bool
is_stale_text self s = if is_empty s then done true else is_stale_pid self (atoi s)

abbrev pub succeed : {A : Type 0} → A → Try A
succeed a = done (ok a)

-- `isStale(path)`
unfoldable pub is_stale : ℕ → Bytes → Try Bool
is_stale self path = do
  raw ← os read_failed (call (read_file path))
  after (is_stale_text self (trim_space raw)) succeed

-- The removal of a stale lock and the second attempt.
abbrev pub reclaim : ℕ → Bytes → Bool → Try Lock
reclaim pid path false = done (err locked)
reclaim pid path true = do
  os remove_failed (call (remove path))
  os reopen_failed (call (create_new path))
  write_pid pid path

-- After the first attempt to create the file.
abbrev pub created : ℕ → Bytes → OsResult (Unit {0}) → Try Lock
created pid path (ok u) = write_pid pid path
created pid path (err exists) = is_stale pid path >>= reclaim pid path
created pid path (err f) = done (err open_failed)

-- `Acquire(path)`
unfoldable pub acquire : ℕ → Bytes → Try Lock
unfolding write_pid is_stale
acquire pid path = do
  os mkdir_failed (call (mkdir_all (dir path) 493))
  after (call (create_new path)) (created pid path)

-- A file that is gone is no error.
abbrev pub removed : OsResult (Unit {0}) → Result LockError (Unit {0})
removed (err not_exist) = ok tt
removed (err f) = err remove_failed
removed (ok u) = ok tt

-- `(l *Lock) Release()`, with the lock that it leaves.
unfoldable pub release : Lock → Act (Result LockError (Unit {0}) × Lock)
release l =
    if l.is_open
    then after (call (close l.path)) (λ _.
      after (call (remove l.path))
        (λ r. done (removed r, record { path = l.path; is_open = false })))
    else done (ok tt, l)
