-- ===== src/Deploy/Contained.antt =====
-- What a deploy does to the file system: each call that writes or removes, by its path.
pub mod Files
pub mod Trees
pub mod Processes
pub mod Accepted
pub mod Strategies
pub mod Runs
pub mod Checked
pub mod Tests
use orascout.Base.{List, Bytes}
use orascout.Host.{
  create_new, open_append, write_file, pull_copy, Call, Act, create, remove, remove_all, mkdir_all,
  chmod, copy, rename,
}
use orascout.Host.Runs.{Calls}
use orascout.Paths.Extend.{IsBelow}

-- The calls that change the file system themselves, where some paths may be written and some may be
-- removed with all they hold. What the processes that a deploy starts do is not restricted.
abbrev pub Permitted : (Bytes → Type 0) → (Bytes → Type 0) → Call → Type 0
Permitted write clear (create p) = write p
Permitted write clear (remove p) = write p
Permitted write clear (remove_all p) = clear p
Permitted write clear (mkdir_all p m) = write p
Permitted write clear (chmod p m) = write p
Permitted write clear (copy p q) = write q
Permitted write clear (rename p q) = write p × write q
Permitted write clear (create_new p) = write p
Permitted write clear (open_append p) = write p
Permitted write clear (write_file p text) = write p
Permitted write clear (Call.write p text) = write p
Permitted write clear (pull_copy r tag p) = write p
Permitted write clear _ = Unit

-- A program that writes and clears only such paths.
abbrev pub Contained : (Bytes → Type 0) → (Bytes → Type 0) → {A : Type 0} → Act A → Type 0
Contained write clear = Calls (Permitted write clear)
