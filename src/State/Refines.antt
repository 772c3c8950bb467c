-- ===== src/State/Refines.antt =====
-- The programs of calls of the store against the description of a save by its faults.
use orascout.Base.{
  subst, Bool, if◌then◌else◌, true, false, Option, none, some, List, [], ◌∷◌, ◌≡◌, refl, ap, ◌∙◌,
  ◌↔◌, Result, ok, err, Bytes,
}
use orascout.Host.{
  ask, Act, failed, Call, Reply, mkdir_all, write_file, rename, call, done, after, ◌>>◌, ◌>>=◌,
}
use orascout.Host.Runs.{Event, Runs, stop, next}
use orascout.Paths.{dir}
use orascout.State.{
  set_in, Disk, put, Faults, FileShape, Store, Entry, StateError, save_locked, set, renamed,
  written, tmp_of,
}
use orascout.State.Program.{set_entries, Try, save_program, set_program, os, marshalled}

-- What the calls of a save do to the regular files: a failed write may leave anything in its file.
abbrev pub Effect : (c : Call) → Reply c → Disk → Disk → Type 0
Effect (mkdir_all p mode) reply d d' = d ≡ d'
Effect (write_file p text) (ok u) d d' = put d p (some text) ≡ d'
Effect (write_file p text) (err e) d d' = (torn : Option Bytes) × (put d p torn ≡ d')
Effect (rename a b) (ok u) d d' = put (put d b (d a)) a none ≡ d'
Effect (rename a b) (err e) d d' = d ≡ d'
Effect _ reply d d' = ⊥

-- The events lead from one disk to another.
abbrev pub Leads : Disk → List Event → Disk → Type 0
Leads d [] d' = d ≡ d'
Leads d (e ∷ es) d' = (m : Disk) × Effect e.request e.reply d m × Leads m es d'

abbrev faults : Bool → Bool → Bool → Option Bytes → Faults
faults m w n torn = record { mkdir = m; write = w; rename = n; torn = torn }

module _ (path : Bytes) where
  abbrev renaming : Try (Unit {0})
  renaming = os StateError.rename_failed (call (rename (tmp_of path) path))

  abbrev writing : Bytes → Try (Unit {0})
  writing buf = os StateError.write_failed (call (write_file (tmp_of path) buf)) >> renaming

  -- What a program of calls can do to the disk.
  abbrev Can : Disk → Try (Unit {0}) → Result StateError (Unit {0}) × Disk → Type 0
  Can d m x = (es : List Event) × Runs x.0 m es × Leads d es x.1

  renaming-Can :
      (d : Disk) (x : Result StateError (Unit {0}) × Disk)
      → Can d renaming x
      → (n : Bool) × (renamed (faults false false n none) path d ≡ x)
  renaming-Can d (r, d') (es, next (ok u) (stop e), (m, effect, same)) =
      (false, cc (e, effect, same))
  renaming-Can d (r, d') (es, next (err y) (stop e), (m, effect, same)) =
      (true, cc (e, effect, same))

  if-Can :
      (d : Disk) (m : Try (Unit {0})) (b : Bool) (x y : Result StateError (Unit {0}) × Disk)
      → Can d m x
      → Can d m y
      → Can d m (if b then x else y)
  if-Can d m true x y h k = h
  if-Can d m false x y h k = k

  Can-renaming : (d : Disk) (f : Faults) → Can d renaming (renamed f path d)
  Can-renaming d f =
      if-Can d renaming f.rename _ _ (_, next (err failed) (stop refl), (d, refl, refl))
        (_, next (ok tt) (stop refl), (_, refl, refl))

  writing-Can :
      (d : Disk) (buf : Bytes) (x : Result StateError (Unit {0}) × Disk)
      → Can d (writing buf) x
      → (w : Bool) × (n : Bool) × (torn : Option Bytes) × (written
            (faults false w n torn)
            path
            d
            (some buf)
          ≡ x)
  writing-Can d buf (r, d') (es, next (ok u) run, (m, effect, leads)) =
      let (n, e) = renaming-Can m (r, d') (_, run, leads) in
      (false, n, none, ap (λ x. renamed (faults false false n none) path x) effect ∙ e)
  writing-Can d buf (r, d') (es, next (err y) (stop e), (m, (torn, effect), leads)) =
      (true, false, torn, cc (e, effect, leads))

  Can-writing :
      (d : Disk) (buf : Bytes) (f : Faults) → Can d (writing buf) (written f path d (some buf))
  Can-writing d buf f =
      let (es, run, leads) = Can-renaming (put d (tmp_of path) (some buf)) f in
      if-Can d (writing buf) f.write _ _
        (_, next (err failed) (stop refl), (_, (f.torn, refl), refl))
        (_, next (ok tt) run, (_, refl, leads))

  module _ (marshal : FileShape → Option Bytes) where
    abbrev saving : Option Bytes → Try (Unit {0})
    saving text =
        os StateError.mkdir_failed (call (mkdir_all (dir path) 493))
        >> (marshalled marshal text >>= writing)

    abbrev save_by : Faults → Disk → Option Bytes → Result StateError (Unit {0}) × Disk
    save_by f d text = if f.mkdir then (err StateError.mkdir_failed, d) else written f path d text

    saving-Can :
        (d : Disk) (text : Option Bytes) (x : Result StateError (Unit {0}) × Disk)
        → Can d (saving text) x
        → (f : Faults) × (save_by f d text ≡ x)
    saving-Can d text (r, d') (es, next (err y) (stop e), (m, effect, leads)) =
        (faults true false false none, cc (e, effect, leads))
    saving-Can d none (r, d') (es, next (ok u) (stop e), (m, effect, leads)) =
        (faults false false false none, cc (e, effect, leads))
    saving-Can d (some buf) (r, d') (es, next (ok u) run, (m, effect, leads)) =
        let (w, n, torn, e) = writing-Can m buf (r, d') (_, run, leads) in
        (
          faults false w n torn,
          ap (λ x. written (faults false w n torn) path x (some buf)) effect ∙ e,
        )

    Can-saving :
        (d : Disk) (text : Option Bytes) (f : Faults) → Can d (saving text) (save_by f d text)
    Can-saving d none f =
        if-Can d (saving none) f.mkdir _ _ (_, next (err failed) (stop refl), (_, refl, refl))
          (_, next (ok tt) (stop refl), (_, refl, refl))
    Can-saving d (some buf) f =
        let (es, run, leads) = Can-writing d buf f in
        if-Can d (saving (some buf)) f.mkdir _ _ (_, next (err failed) (stop refl), (_, refl, refl))
          (_, next (ok tt) run, (_, refl, leads))

module _ (marshal : FileShape → Option Bytes) where
  save_program-Can :
      (s : Store) (d : Disk) (x : Result StateError (Unit {0}) × Disk)
      → Can s.path d (save_program marshal s) x ↔ ((f : Faults) × (save_locked marshal f s d ≡ x))
  unfolding save_program save_locked
  save_program-Can s d x = (
    saving-Can s.path marshal d (marshal s.shape) x,
    λ y.
        subst (Can s.path d (saving s.path marshal (marshal s.shape))) y.1
          (Can-saving s.path marshal d (marshal s.shape) y.0),
  )

  -- A run of a recording and what it does to the disk.
  abbrev pub Behaves :
      Disk
      → Act (Result StateError (Unit {0}) × Store)
      → Result StateError (Unit {0}) × Store × Disk
      → Type 0
  Behaves d m (r, s', d') = (es : List Event) × Runs (r, s') m es × Leads d es d'

  Runs-tagged :
      {A B : Type 0} {a : A} (b : B) (m : Act A) {es : List Event}
      → Runs a m es
      → Runs {A = A × B} (a, b) (after m (λ x. done (x, b))) es
  Runs-tagged b (done a) (stop e) = stop (cc e)
  Runs-tagged b (ask c k) (next r run) = next r (Runs-tagged b (k r) run)

  untagged :
      {A B : Type 0} {a : A} {b b' : B} (m : Act A) {es : List Event}
      → Runs {A = A × B} (a, b') (after m (λ x. done (x, b))) es
      → Runs a m es × (b ≡ b')
  untagged (done a) (stop e) = (stop (cc e), cc e)
  untagged (ask c k) (next r run) = let (rest, same) = untagged (k r) run in (next r rest, same)

  ended :
      {x : Result StateError (Unit {0}) × Store} {r : Result StateError (Unit {0})} {s' : Store}
      (d d' : Disk)
      → Behaves d (done x) (r, s', d')
      → ◌≡◌ {A = Result StateError (Unit {0}) × Store × Disk} (x.0, x.1, d) (r, s', d')
  ended d d' (es, stop e, leads) = cc (e, leads)

  set_entries-Behaves :
      (s : Store) (ref : Bytes) (e : Entry) (d : Disk) (o : Option (List (Bytes × Entry)))
      (x : Result StateError (Unit {0}) × Store × Disk)
      → Behaves d (set_entries marshal s ref e o) x
        ↔ ((f : Faults) × (set_in marshal f s ref e d o ≡ x))
  set_entries-Behaves s ref e d none (r, s', d') =
      ((λ x. (faults false false false none, ended d d' x)), (λ x. ([], stop (cc x.1), cc x.1)))
  set_entries-Behaves s ref e d (some entries) (r, s', d') =
      let s0 : Store = record {
        path = s.path;
        shape = record { schema = s.shape.schema; entries = some ((ref, e) ∷ entries) };
      } in
      (
        (λ x.
            let (run, same) = untagged (save_program marshal s0) x.1 in
            let (f, saves) = (save_program-Can s0 d (r, d')).0 (x.0, run, x.2) in
            (f, cc (saves, same))),
        (λ x.
            let (es, run, leads) =
              (save_program-Can s0 d (save_locked marshal x.0 s0 d)).1 (x.0, refl) in
            subst (Behaves d (after (save_program marshal s0) (λ y. done (y, s0)))) x.1
              (es, Runs-tagged s0 (save_program marshal s0) run, leads)),
      )

  -- The program of calls by which the watcher records an entry and the description of `Set` by its
  -- faults have the same outcomes: a result, a store and a disk are reached by a run of the program
  -- against the files exactly if `Set` ends with them under some faults.
  pub set_program-Refines :
      (s : Store) (ref : Bytes) (e : Entry) (d : Disk)
      (x : Result StateError (Unit {0}) × Store × Disk)
      → Behaves d (set_program marshal s ref e) x ↔ ((f : Faults) × (set marshal f s ref e d ≡ x))
  unfolding set_program set
  set_program-Refines s ref e d x = set_entries-Behaves s ref e d s.shape.entries x
