-- ===== src/Lockfile/System.antt =====
-- Several processes on one lock file: every process runs some rounds, each between taking and releasing
-- the lock, and the calls of the processes interleave in any order. A process writes to the file that it
-- made, even where another one has removed it from the directory.
use orascout.Base.{
  ℕ, zero, suc, ◌≡◌, Bool, Option, none, some, List, [], ◌∷◌, ◌==◌, if◌then◌else◌, Result, ok, err,
  Bytes,
}
use orascout.Host.{Act, done, ask, after, Call, Reply, create_new, write, remove, read_file, poll}
use orascout.Lockfile.{LockError, Lock, acquire, release}

-- The file at the path of the lock, with the process that made it.
pub record Inode : Type 0 where
  pub owner : ℕ
  pub text : Bytes

abbrev pub File : Type 0
File = Option Inode

abbrev pub put_text : ℕ → Bytes → File → File
put_text p text none = none
put_text p text (some i) = some (if i.owner == p then record { owner = p; text = text } else i)

-- How the file system serves a call of a process on the lock file, which may fail. A failed write may
-- leave anything in the file of the process.
abbrev pub Serves : Bytes → ℕ → (c : Call) → Reply c → File → File → Type 0
Serves lock p (create_new path) (ok u) f f' =
    (path ≡ lock) × (f ≡ none) × (f' ≡ some (record { owner = p; text = [] }))
Serves lock p (write path text) (ok u) f f' = (path ≡ lock) × (f' ≡ put_text p text f)
Serves lock p (write path text) (err e) f f' =
    (path ≡ lock) × (torn : Bytes) × (f' ≡ put_text p torn f)
Serves lock p (remove path) (ok u) f f' = (path ≡ lock) × (f' ≡ none)
Serves lock p (read_file path) (ok text) f f' =
    (path ≡ lock) × (i : Inode) × (f ≡ some i) × (i.text ≡ text) × (f' ≡ f)
Serves lock p c r f f' = f' ≡ f

-- What a process does between taking and releasing the lock is one call.
abbrev pub visit : Result LockError Lock → Act (Unit {0})
visit (err e) = done tt
visit (ok lock) = ask poll (λ stopped. after (release lock) (λ r. done tt))

-- So many rounds of a process.
unfoldable pub rounds : ℕ → ℕ → Bytes → Act (Unit {0})
rounds zero p lock = done tt
rounds (suc n) p lock = after (after (acquire p lock) visit) (λ u. rounds n p lock)

pub record System : Type 0 where
  pub file : File
  pub programs : ℕ → Act (Unit {0})

-- A call, by whom it was made, what the reply was, and the file at that time.
pub record Moment : Type 0 where
  pub process : ℕ
  pub request : Call
  pub reply : Reply request
  pub file : File

abbrev pub advance : System → ℕ → Act (Unit {0}) → File → System
advance s p m file = record { file = file; programs = λ q. if q == p then m else s.programs q }

-- The moments, last one first, lead from the one state to the other.
pub data Steps (lock : Bytes) (s : System) : List Moment → System → Type 0 where
  start : Steps lock s [] s
  step :
      {ms : List Moment} {s' : System} (p : ℕ) (c : Call) (k : Reply c → Act (Unit {0}))
      (r : Reply c) (file : File)
      → Steps lock s ms s'
      → s'.programs p ≡ ask c k
      → Serves lock p c r s'.file file
      → Steps lock s
          (record { process = p; request = c; reply = r; file = s'.file } ∷ ms)
          (advance s' p (k r) file)

-- Every process is before its first round, and there is no lock file.
abbrev pub initial : Bytes → (ℕ → ℕ) → System
initial lock n = record { file = none; programs = λ p. rounds (n p) p lock }

-- The process holds the lock.
abbrev pub IsInside : System → ℕ → Type 0
IsInside s p = (k : Bool → Act (Unit {0})) × (s.programs p ≡ ask poll k)
