-- ===== src/Host.antt =====
-- The operating system as the program sees it: the calls that it makes and the replies that it may
-- get. A program is a tree: it ends with a result, or makes a call and goes on by the reply. So a
-- property of all branches of the tree holds on every host, whatever it replies.
pub mod Runs
pub mod Splits
pub mod Ensures
use orascout.Base.{ℕ, Bool, Option, List, Result, ok, err, Bytes}
use orascout.Base.Int.{ℤ}

-- The errors that the program tells apart, by `os.IsNotExist` and `os.ErrExist`.
pub data Failure : Type 0 where
  not_exist exists failed : Failure

abbrev pub OsResult : Type 0 → Type 0
OsResult A = Result Failure A

pub data FileKind : Type 0 where
  regular directory special : FileKind

pub record FileInfo : Type 0 where
  pub kind : FileKind
  pub perm : ℕ

-- What `filepath.Walk` hands its function: the names that lead from the root to the file, and what
-- `Lstat` said of it.
pub record Visit : Type 0 where
  pub names : List Bytes
  pub info : OsResult FileInfo

-- A subprocess: its arguments, its directory (empty: inherited), what is added to the environment,
-- and its time limit.
pub record Command : Type 0 where
  pub argv : List Bytes
  pub cwd : Bytes
  pub env : List Bytes
  pub limit : Option ℤ

-- A repository of a registry, as `remote.Repository` holds it.
pub record Remote : Type 0 where
  pub name : Bytes
  pub plain_http : Bool
  pub host : Bytes
  pub username : Bytes
  pub password : Bytes
  pub token : Bytes

pub data Call : Type 0 where
  lstat stat eval_symlinks open_file create close remove remove_all read_dir walk : Bytes → Call
  mkdir_all chmod : Bytes → ℕ → Call
  copy rename : Bytes → Bytes → Call
  command : Command → Call
  now : Call
  wait : ℤ → Call
  -- whole files, files that must not exist yet, and what is written to an open one
  read_file create_new open_append : Bytes → Call
  write_file write : Bytes → Bytes → Call
  -- signal 0 to a process
  signal : ℤ → Call
  -- whether the context is cancelled, and the next tick of a ticker
  poll : Call
  tick : ℤ → Call
  -- the library oras-go
  new_repository file_store pack_manifest tag_manifest : Bytes → Call
  resolve fetch_reference : Remote → Bytes → Call
  read_body : Call
  pull_copy push_copy : Remote → Bytes → Bytes → Call
  add_layer : Bytes → Bytes → Call

-- `now` replies with nanoseconds, `wait` and `poll` whether the context is cancelled, `tick` whether it
-- was cancelled before the tick, `command` whether the process was started and exited with 0, and
-- `signal` whether the signal could be delivered.
abbrev pub Reply : Call → Type 0
Reply (lstat p) = OsResult FileInfo
Reply (eval_symlinks p) = OsResult Bytes
Reply (read_dir p) = OsResult (List Bytes)
Reply (walk p) = List Visit
Reply (command c) = Bool
Reply now = ℤ
Reply (wait t) = Bool
Reply (read_file p) = OsResult Bytes
Reply (signal pid) = Bool
Reply poll = Bool
Reply (tick t) = Bool
Reply (resolve r tag) = OsResult Bytes
Reply read_body = OsResult Bytes
Reply _ = OsResult (Unit {0})

pub data Act (A : Type 0) : Type 0 where
  done : A → Act A
  ask : (c : Call) → (Reply c → Act A) → Act A

-- One program after another.
abbrev pub after : {A B : Type 0} → Act A → (A → Act B) → Act B
after (done a) f = f a
after (ask c k) f = ask c (λ r. after (k r) f)

abbrev pub call : (c : Call) → Act (Reply c)
call c = ask c done

-- Programs that may return an error, which ends what follows.
module _ {E A B : Type 0} where
  abbrev pub on_ok : (A → Act (Result E B)) → Result E A → Act (Result E B)
  on_ok f (ok a) = f a
  on_ok f (err e) = done (err e)

  infixl 5 ◌>>=◌
  abbrev pub ◌>>=◌ : Act (Result E A) → (A → Act (Result E B)) → Act (Result E B)
  m >>= f = after m (on_ok f)

module _ {E B : Type 0} where
  infixl 5 ◌>>◌
  abbrev pub ◌>>◌ : Act (Result E (Unit {0})) → Act (Result E B) → Act (Result E B)
  m >> k = m >>= λ _. k
