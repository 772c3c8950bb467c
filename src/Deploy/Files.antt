-- ===== src/Deploy/Files.antt =====
-- internal/deploy/fsutil.go: copying, clearing and permissions, as programs of calls. Closing the
-- source of a copy, whose error is ignored, is left out.
use orascout.Base.{
  ℕ, Bool, false, Option, none, some, List, [], ◌∷◌, ◌++◌, if◌then◌else◌, Result, ok, err, Bytes,
  codes,
}
use orascout.Host.{
  not_exist, OsResult, FileKind, regular, directory, special, FileInfo, Visit, lstat, eval_symlinks,
  open_file, create, close, remove, remove_all, read_dir, walk, mkdir_all, chmod, copy, rename,
  done, after, call, ◌>>=◌, ◌>>◌,
}
use orascout.Paths.{dir, join, render}
use orascout.Deploy.Safety.{guard_clear_dir}
use orascout.Deploy.Errors.{
  Try, DeployError, clear_rejected, os_failed, not_regular, check, os, succeed, fail, execute,
}

-- 0o755
abbrev pub dir_mode : ℕ
dir_mode = 493

abbrev pub tmp_suffix : Bytes
unfolding codes
tmp_suffix = codes ".orascout.tmp"

-- `chown(path, owner)`
unfoldable pub chown : Bytes → Bytes → Try (Unit {0})
chown path owner =
    execute (record { argv = codes "chown" ∷ owner ∷ path ∷ []; cwd = []; env = []; limit = none })

-- `if mode != nil { … }`
unfoldable pub set_mode : Bytes → Option ℕ → Try (Unit {0})
set_mode path none = succeed
set_mode path (some mode) = os (call (chmod path mode))

-- `if owner != "" { … }`
unfoldable pub set_owner : Bytes → Bytes → Try (Unit {0})
unfolding chown
set_owner path [] = succeed
set_owner path (c ∷ owner) = chown path (c ∷ owner)

abbrev pub check_regular : FileKind → Try (Unit {0})
check_regular regular = succeed
check_regular _ = fail not_regular

-- `io.Copy`, which on an error closes and removes the temporary file.
abbrev pub copied : Bytes → OsResult (Unit {0}) → Try (Unit {0})
copied tmp (ok u) = succeed
copied tmp (err e) =
    after (call (close tmp)) (λ _. after (call (remove tmp)) (λ _. fail (os_failed e)))

-- `copyFile(src, dst, mode, owner)`
unfoldable pub copy_file : Bytes → Bytes → Option ℕ → Bytes → Try (Unit {0})
copy_file src dst mode owner = do
  info ← os (call (lstat src))
  check_regular info.kind
  os (call (mkdir_all (dir dst) dir_mode))
  os (call (open_file src))
  let tmp = dst ++ tmp_suffix
  os (call (create tmp))
  after (call (copy src tmp)) (copied tmp)
  os (call (close tmp))
  os (call (rename tmp dst))
  set_mode dst mode
  set_owner dst owner

-- A loop that stops at the first error.
unfoldable pub each : {A : Type 0} → (A → Try (Unit {0})) → List A → Try (Unit {0})
each f [] = succeed
each f (x ∷ xs) = f x >> each f xs

-- `filepath.Join(root, rel)` for the relative path of a visit; the root itself for ".".
abbrev pub visited : Bytes → List Bytes → Bytes
visited root [] = root
visited root (e ∷ es) = join root (render false (e ∷ es))

unfoldable pub copy_info : Bytes → Bytes → FileKind → ℕ → Try (Unit {0})
copy_info path target directory perm = os (call (mkdir_all target perm))
copy_info path target regular perm = copy_file path target none []
copy_info path target special perm = fail not_regular

unfoldable pub copy_names : Bytes → Bytes → FileInfo → List Bytes → Try (Unit {0})
unfolding copy_info
copy_names src dst info [] = succeed
copy_names src dst info (e ∷ es) =
    copy_info (visited src (e ∷ es)) (visited dst (e ∷ es)) info.kind info.perm

-- The function that `copyDir` walks with.
unfoldable pub copy_visit : Bytes → Bytes → Visit → Try (Unit {0})
unfolding copy_names
copy_visit src dst v = do info ← check os_failed v.info; copy_names src dst info v.names

unfoldable pub apply_visit : Bytes → Option ℕ → Bytes → Visit → Try (Unit {0})
apply_visit root mode owner v = do
  info ← check os_failed v.info
  set_mode (visited root v.names) mode
  set_owner (visited root v.names) owner

-- `applyTreePerms(root, mode, owner)`
unfoldable pub apply_tree_perms : Bytes → Option ℕ → Bytes → Try (Unit {0})
unfolding apply_visit
apply_tree_perms root mode owner = after (call (walk root)) (each (apply_visit root mode owner))

abbrev pub listed : OsResult (List Bytes) → Result DeployError (List Bytes)
listed (ok names) = ok names
listed (err not_exist) = ok []
listed (err e) = err (os_failed e)

-- `clearDirContents(dir)`. A directory that does not exist has no entries.
unfoldable pub clear_dir_contents : Bytes → Try (Unit {0})
clear_dir_contents d = do
  after (call (eval_symlinks d)) (λ r. check clear_rejected (guard_clear_dir r))
  names ← after (call (read_dir d)) (λ r. done (listed r))
  each (λ name. os (call (remove_all (join d name)))) names

abbrev pub perms_if : Bytes → Option ℕ → Bytes → Try (Unit {0})
perms_if root none [] = succeed
perms_if root mode owner = apply_tree_perms root mode owner

abbrev pub clear_if : Bool → Bytes → Try (Unit {0})
clear_if clear d = if clear then clear_dir_contents d else succeed

-- `copyDir(srcDir, dstDir, clear, mode, owner)`. The walk's listing is taken before its first copy.
unfoldable pub copy_dir : Bytes → Bytes → Bool → Option ℕ → Bytes → Try (Unit {0})
copy_dir src dst clear mode owner = do
  clear_if clear dst
  os (call (mkdir_all dst dir_mode))
  after (call (walk src)) (each (copy_visit src dst))
  perms_if dst mode owner
