-- ===== src/Deploy/Contained/Trees.antt =====
-- The operations of internal/deploy/fsutil.go on trees write only below the directory of their target.
use orascout.Base.{
  ℕ, ◌≡◌, refl, Bool, true, false, Option, none, some, List, [], ◌∷◌, All, ok, err, Bytes,
}
use orascout.Host.{
  read_dir, remove_all, walk, ◌>>=◌, call, mkdir_all, ◌>>◌, FileInfo, Visit, FileKind, regular,
  directory, special, done, after, not_exist, exists, failed, OsResult, on_ok, FileInfo,
}
use orascout.Host.Runs.{IsSane, Calls-on_ok}
use orascout.Paths.{is_abs, elements, dir, join}
use orascout.Paths.Elements.{IsName}
use orascout.Paths.Inside.{Inside}
use orascout.Paths.Extend.{Inside-trans, IsBelow}
use orascout.Paths.Joined.{join-IsChild}
use orascout.Deploy.Safety.{guard_clear_dir}
use orascout.Deploy.Errors.{clear_rejected, os, os_failed, wrapped}
use orascout.Deploy.Files.{
  listed, perms_if, dir_mode, set_mode, set_owner, each, visited, copy_visit, apply_tree_perms,
  clear_dir_contents, clear_if, copy_dir, apply_visit, copy_names, copy_info,
}
use orascout.Deploy.Contained.{Permitted, Contained}
use orascout.Deploy.Contained.Files.{
  copied_paths-IsBelow, copy_file-Contained, each-Contained, perms-Contained, then-Contained,
}

module _ (write clear : Bytes → Type 0) where
  clear_entries-Contained :
      (d : Bytes) (r : OsResult (List Bytes))
      → ((name : Bytes) → IsName name → clear (join d name))
      → IsSane (read_dir d) r
      → Contained write clear
          (on_ok (each (λ name. os (call (remove_all (join d name))))) (listed r))
  clear_entries-Contained d (ok names) k n =
      each-Contained write clear IsName (λ name. os (call (remove_all (join d name))))
        (λ name h. (k name h, λ r _. tt)) names n
  clear_entries-Contained d (err not_exist) k n = unfold each in tt
  clear_entries-Contained d (err exists) k n = tt
  clear_entries-Contained d (err failed) k n = tt

  -- Clearing removes the entries of the directory only.
  pub clear_dir_contents-Contained :
      (d : Bytes)
      → ((name : Bytes) → IsName name → clear (join d name))
      → Contained write clear (clear_dir_contents d)
  unfolding clear_dir_contents
  clear_dir_contents-Contained d k = (
    tt,
    λ r _.
        Calls-on_ok (Permitted write clear)
          (λ _. after (call (read_dir d)) (λ r. done (listed r)) >>= λ names.
            each (λ name. os (call (remove_all (join d name)))) names)
          (wrapped clear_rejected (guard_clear_dir r))
          (λ _. (tt, λ r n. clear_entries-Contained d r k n)),
  )

  pub clear_if-Contained :
      (b : Bool) (d : Bytes)
      → (b ≡ true → (name : Bytes) → IsName name → clear (join d name))
      → Contained write clear (clear_if b d)
  clear_if-Contained true d k = clear_dir_contents-Contained d (k refl)
  clear_if-Contained false d k = tt

module _ (ds : List Bytes) (clear : Bytes → Type 0) where
  -- Whatever a host lists below a directory, it is named from there.
  visited-IsBelow :
      (root : Bytes) (names : List Bytes)
      → is_abs root ≡ true
      → Inside ds (elements root)
      → All IsName names
      → IsBelow ds (visited root names)
  visited-IsBelow root [] h i n = record { absolute = h; inside = i }
  visited-IsBelow root (e ∷ es) h i n =
      let c = join-IsChild root e es h n in
      record {
        absolute = c.absolute;
        inside = Inside-trans ds (elements root) (elements (visited root (e ∷ es))) i c.inside;
      }

  copy_info-Contained :
      (src dst e : Bytes) (es : List Bytes) (k : FileKind) (perm : ℕ)
      → is_abs dst ≡ true
      → Inside ds (elements dst)
      → All IsName (e ∷ es)
      → Contained (IsBelow ds) clear (copy_info src (visited dst (e ∷ es)) k perm)
  unfolding copy_info
  copy_info-Contained src dst e es directory perm h i n =
      (visited-IsBelow dst (e ∷ es) h i n, λ r _. tt)
  copy_info-Contained src dst e es regular perm h i n =
      let c = join-IsChild dst e es h n in
      let (target, tmp, parent) =
        copied_paths-IsBelow ds (visited dst (e ∷ es)) c.absolute c.last_ne_dotdot
          (Inside-trans ds (elements dst) (elements (dir (visited dst (e ∷ es)))) i c.parent) in
      copy_file-Contained (IsBelow ds) clear src (visited dst (e ∷ es)) none [] target tmp parent
  copy_info-Contained src dst e es special perm h i n = tt

  copy_names-Contained :
      (src dst : Bytes) (info : FileInfo) (names : List Bytes)
      → is_abs dst ≡ true
      → Inside ds (elements dst)
      → All IsName names
      → Contained (IsBelow ds) clear (copy_names src dst info names)
  unfolding copy_names
  copy_names-Contained src dst info [] h i n = tt
  copy_names-Contained src dst info (e ∷ es) h i n =
      copy_info-Contained (visited src (e ∷ es)) dst e es info.kind info.perm h i n

  copy_visit-Contained :
      (src dst : Bytes) (v : Visit)
      → is_abs dst ≡ true
      → Inside ds (elements dst)
      → All IsName v.names
      → Contained (IsBelow ds) clear (copy_visit src dst v)
  unfolding copy_visit
  copy_visit-Contained src dst v h i n =
      Calls-on_ok (Permitted (IsBelow ds) clear) (λ info. copy_names src dst info v.names)
        (wrapped os_failed v.info) (λ info. copy_names-Contained src dst info v.names h i n)

  apply_visit-Contained :
      (root : Bytes) (mode : Option ℕ) (owner : Bytes) (v : Visit)
      → is_abs root ≡ true
      → Inside ds (elements root)
      → All IsName v.names
      → Contained (IsBelow ds) clear (apply_visit root mode owner v)
  unfolding apply_visit
  apply_visit-Contained root mode owner v h i n =
      Calls-on_ok (Permitted (IsBelow ds) clear)
        (λ info. set_mode (visited root v.names) mode >> set_owner (visited root v.names) owner)
        (wrapped os_failed v.info)
        (λ info.
          perms-Contained (IsBelow ds) clear (visited root v.names) mode owner
            (visited-IsBelow root v.names h i n))

  apply_tree_perms-Contained :
      (root : Bytes) (mode : Option ℕ) (owner : Bytes)
      → is_abs root ≡ true
      → Inside ds (elements root)
      → Contained (IsBelow ds) clear (apply_tree_perms root mode owner)
  unfolding apply_tree_perms
  apply_tree_perms-Contained root mode owner h i = (
    tt,
    λ vs named.
        each-Contained (IsBelow ds) clear (λ v. All IsName v.names) (apply_visit root mode owner)
          (λ v n. apply_visit-Contained root mode owner v h i n) vs named,
  )

  perms_if-Contained :
      (root : Bytes) (mode : Option ℕ) (owner : Bytes)
      → is_abs root ≡ true
      → Inside ds (elements root)
      → Contained (IsBelow ds) clear (perms_if root mode owner)
  perms_if-Contained root none [] h i = tt
  perms_if-Contained root (some m) owner h i = apply_tree_perms-Contained root (some m) owner h i
  perms_if-Contained root none (c ∷ owner) h i =
      apply_tree_perms-Contained root none (c ∷ owner) h i

  pub copy_dir-Contained :
      (src dst : Bytes) (b : Bool) (mode : Option ℕ) (owner : Bytes)
      → is_abs dst ≡ true
      → Inside ds (elements dst)
      → (b ≡ true → (name : Bytes) → IsName name → clear (join dst name))
      → Contained (IsBelow ds) clear (copy_dir src dst b mode owner)
  unfolding copy_dir
  copy_dir-Contained src dst b mode owner h i k =
      let perms = perms_if dst mode owner in
      let copied = after (call (walk src)) (each (copy_visit src dst)) >> perms in
      let made = os (call (mkdir_all dst dir_mode)) >> copied in
      then-Contained (IsBelow ds) clear (clear_if b dst) made
        (clear_if-Contained (IsBelow ds) clear b dst k)
        (then-Contained (IsBelow ds) clear (os (call (mkdir_all dst dir_mode))) copied
          (record { absolute = h; inside = i }, λ r _. tt)
          (then-Contained (IsBelow ds) clear (after (call (walk src)) (each (copy_visit src dst)))
            perms
            (
              tt,
              λ vs named.
                  each-Contained (IsBelow ds) clear (λ v. All IsName v.names) (copy_visit src dst)
                    (λ v n. copy_visit-Contained src dst v h i n) vs named,
            )
            (perms_if-Contained dst mode owner h i)))
