-- ===== src/Deploy/Contained/Files.antt =====
-- The operations of internal/deploy/fsutil.go on single files write only to their target, the temporary
-- file beside it, and their directory.
use orascout.Base.{
  ℕ, ◌<◌, ◌≡◌, ◌≢◌, true, Option, none, some, List, [], ◌∷◌, ◌++◌, arith, length, All, ok, err,
  Bytes, codes,
}
use orascout.Host.{
  call, lstat, close, copy, create, mkdir_all, open_file, rename, ◌>>◌, FileKind, regular,
  directory, special, after, OsResult,
}
use orascout.Host.Runs.{Calls-bind}
use orascout.Paths.{is_abs, elements, dir, dotdot}
use orascout.Strings.{split}
use orascout.Paths.Dirs.{is_abs-dir}
use orascout.Paths.Elements.{split-NoSlash, NoSlash, NoSlash}
use orascout.Paths.Parents.{last_part}
use orascout.Paths.Inside.{Inside}
use orascout.Paths.Extend.{IsBelow, dir-IsBelow, suffixed-IsBelow}
use orascout.Deploy.Errors.{os, Try, check, os_failed}
use orascout.Deploy.Files.{
  copied, check_regular, dir_mode, tmp_suffix, set_mode, set_owner, chown, copy_file, each,
}
use orascout.Deploy.Contained.{Permitted, Contained}

suffix-NoSlash : NoSlash tmp_suffix
unfolding codes split
suffix-NoSlash = (split-NoSlash tmp_suffix).0

suffix_long : 2 < length tmp_suffix
unfolding codes
suffix_long = omega arith

-- The paths that copying to a file writes to are below a directory that its own is inside of.
pub copied_paths-IsBelow :
    (ds : List Bytes) (dst : Bytes)
    → is_abs dst ≡ true
    → (last_part dst).last ≢ dotdot
    → Inside ds (elements (dir dst))
    → IsBelow ds dst × IsBelow ds (dst ++ tmp_suffix) × IsBelow ds (dir dst)
copied_paths-IsBelow ds dst h n i = (
  dir-IsBelow ds dst h n i,
  suffixed-IsBelow ds dst tmp_suffix h suffix_long suffix-NoSlash i,
  record { absolute = is_abs-dir dst h; inside = i },
)

module _ (write clear : Bytes → Type 0) where
  set_owner-Contained : (p owner : Bytes) → Contained write clear (set_owner p owner)
  unfolding set_owner chown
  set_owner-Contained p [] = tt
  set_owner-Contained p (c ∷ owner) = (tt, λ r _. tt)

  os-Contained : {B : Type 0} (r : OsResult B) → Contained write clear (check os_failed r)
  os-Contained r = tt

  set_mode-Contained :
      (p : Bytes) (mode : Option ℕ) → write p → Contained write clear (set_mode p mode)
  unfolding set_mode
  set_mode-Contained p none h = tt
  set_mode-Contained p (some mode) h = (h, λ r _. tt)

  -- One program after another.
  pub then-Contained :
      {B : Type 0} (m : Try (Unit {0})) (k : Try B)
      → Contained write clear m
      → Contained write clear k
      → Contained write clear (m >> k)
  then-Contained m k h g = Calls-bind (Permitted write clear) m (λ _. k) h (λ _. g)

  pub perms-Contained :
      (p : Bytes) (mode : Option ℕ) (owner : Bytes)
      → write p
      → Contained write clear (set_mode p mode >> set_owner p owner)
  perms-Contained p mode owner h =
      then-Contained (set_mode p mode) (set_owner p owner) (set_mode-Contained p mode h)
        (set_owner-Contained p owner)

  pub each-Contained :
      {A : Type 0} (Q : A → Type 0) (f : A → Try (Unit {0}))
      → ((x : A) → Q x → Contained write clear (f x))
      → (xs : List A) → All Q xs
      → Contained write clear (each f xs)
  unfolding each
  each-Contained Q f h [] q = tt
  each-Contained Q f h (x ∷ xs) q =
      then-Contained (f x) (each f xs) (h x q.0) (each-Contained Q f h xs q.1)

  check_regular-Contained : (k : FileKind) → Contained write clear (check_regular k)
  check_regular-Contained regular = tt
  check_regular-Contained directory = tt
  check_regular-Contained special = tt

  copied-Contained :
      (p : Bytes) (r : OsResult (Unit {0})) → write p → Contained write clear (copied p r)
  copied-Contained p (ok u) h = tt
  copied-Contained p (err e) h = (tt, λ r _. (h, λ q _. tt))

  pub copy_file-Contained :
      (src dst : Bytes) (mode : Option ℕ) (owner : Bytes)
      → write dst
      → write (dst ++ tmp_suffix)
      → write (dir dst)
      → Contained write clear (copy_file src dst mode owner)
  unfolding copy_file
  copy_file-Contained src dst mode owner target tmp parent =
      let t = dst ++ tmp_suffix in
      let perms = set_mode dst mode >> set_owner dst owner in
      let renamed = os (call (rename t dst)) >> perms in
      let closed = os (call (close t)) >> renamed in
      let filled = after (call (copy src t)) (copied t) >> closed in
      let created = os (call (create t)) >> filled in
      let opened = os (call (open_file src)) >> created in
      let made = os (call (mkdir_all (dir dst) dir_mode)) >> opened in
      Calls-bind (Permitted write clear) (os (call (lstat src)))
        (λ info. check_regular info.kind >> made) (tt, λ r _. tt)
        (λ info. then-Contained (check_regular info.kind) made (check_regular-Contained info.kind) (
          then-Contained (os (call (mkdir_all (dir dst) dir_mode))) opened (parent, λ r _. tt)
            (then-Contained (os (call (open_file src))) created (tt, λ r _. tt)
              (then-Contained (os (call (create t))) filled (tmp, λ r _. tt)
                (then-Contained (after (call (copy src t)) (copied t)) closed
                  (tmp, λ r _. copied-Contained t r tmp)
                  (then-Contained (os (call (close t))) renamed (tt, λ r _. tt)
                    (then-Contained (os (call (rename t dst))) perms ((tmp, target), λ r _. tt)
                      (perms-Contained dst mode owner target))))))))
