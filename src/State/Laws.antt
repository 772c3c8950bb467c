-- ===== src/State/Laws.antt =====
-- What a save leaves on the disk, and what reopening the store finds there.
use orascout.Base.{
  eqb_ne, eqb_refl, Bool, ◌∙◌, if◌then◌else◌, some, ◌≡◌, refl, ap, ◌≢◌, ◌⊎◌, inl, inr, true, false,
  Option, none, arith, length, length-append, Result, ok, err, Bytes, codes,
}
use orascout.State.{
  Store, renamed, save_locked, written, FileShape, StateError, Disk, put, Faults, tmp_of,
}

put_same : (disk : Disk) (p : Bytes) (c : Option Bytes) → put disk p c p ≡ c
put_same disk p c = rw (eqb_refl p) refl

put_other :
    (disk : Disk) (p : Bytes) (c : Option Bytes) (q : Bytes) → q ≢ p → put disk p c q ≡ disk q
put_other disk p c q n = rw (eqb_ne q p n) refl

ne_tmp : (path : Bytes) → path ≢ tmp_of path
unfolding codes
ne_tmp path e = omega (arith, ap length e, length-append path (codes ".tmp"))

-- A save, as the files see it: the state file holds the whole new text if it succeeds, and what it
-- held before if it fails. Beside it only the temporary file may change.
pub record IsAtomic (path : Bytes) (text : Option Bytes) (disk : Disk)
    (r : Result StateError (Unit {0})) (after : Disk) : Type 0 where
  pub whole :
      ((r ≡ ok tt) × (text ≢ none) × (after path ≡ text)) ⊎ ((r ≢ ok tt) × (after path ≡ disk path))
  pub others : (q : Bytes) → q ≢ path → q ≢ tmp_of path → after q ≡ disk q

module _ (f : Faults) (path : Bytes) (disk : Disk) where
  failed_save :
      (text : Option Bytes) (e : StateError) (after : Disk)
      → ((q : Bytes) → q ≢ tmp_of path → after q ≡ disk q)
      → IsAtomic path text disk (err e) after
  failed_save text e after h = record {
    whole = inr ((λ p. cc p), h path (ne_tmp path));
    others = λ q n m. h q m;
  }

  abbrev Atomic : Option Bytes → Result StateError (Unit {0}) × Disk → Type 0
  Atomic text out = IsAtomic path text disk out.0 out.1

  written_tmp :
      (c : Option Bytes) (q : Bytes) → q ≢ tmp_of path → put disk (tmp_of path) c q ≡ disk q
  written_tmp c q n = put_other disk (tmp_of path) c q n

  renamed_ok :
      (buf : Bytes)
      → IsAtomic path (some buf) disk (ok tt) (
          put
            (put
              (put disk (tmp_of path) (some buf))
              path
              (put disk (tmp_of path) (some buf) (tmp_of path)))
            (tmp_of path)
            none)
  renamed_ok buf =
      let tmp = tmp_of path in
      let d = put disk tmp (some buf) in
      record {
        whole = inl (
          refl,
          (λ p. cc p),
          put_other (put d path (d tmp)) tmp none path (ne_tmp path)
              ∙ put_same d path (d tmp)
              ∙ put_same disk tmp (some buf),
        );
        others = λ q n m.
            put_other (put d path (d tmp)) tmp none q m
            ∙ put_other d path (d tmp) q n
            ∙ written_tmp (some buf) q m;
      }

  if-Atomic :
      (b : Bool) (text : Option Bytes) (x y : Result StateError (Unit {0}) × Disk)
      → Atomic text x
      → Atomic text y
      → Atomic text (if b then x else y)
  if-Atomic true text x y h k = h
  if-Atomic false text x y h k = k

  renamed-Atomic :
      (buf : Bytes) → Atomic (some buf) (renamed f path (put disk (tmp_of path) (some buf)))
  renamed-Atomic buf =
      if-Atomic f.rename (some buf) _ _
        (failed_save (some buf) StateError.rename_failed _ (written_tmp (some buf)))
        (renamed_ok buf)

  written-Atomic : (text : Option Bytes) → Atomic text (written f path disk text)
  written-Atomic none = failed_save none StateError.marshal_failed disk (λ q n. refl)
  written-Atomic (some buf) =
      if-Atomic f.write (some buf) _ _
        (failed_save (some buf) StateError.write_failed _ (written_tmp f.torn)) (renamed-Atomic buf)

module _ (marshal : FileShape → Option Bytes) where
  -- However its calls fail, a save replaces the state file by the whole new text and says so, or
  -- leaves it as it was and returns an error. No other file but the temporary one changes.
  pub save_locked-IsAtomic :
      (f : Faults) (s : Store) (disk : Disk)
      → let out = save_locked marshal f s disk in IsAtomic s.path (marshal s.shape) disk out.0 out.1
  unfolding save_locked
  save_locked-IsAtomic f s disk =
      if-Atomic f s.path disk f.mkdir (marshal s.shape) _ _
        (failed_save f s.path disk (marshal s.shape) StateError.mkdir_failed disk (λ q n. refl))
        (written-Atomic f s.path disk (marshal s.shape))
