-- ===== src/State/Program.antt =====
-- internal/state/state.go: opening and recording as programs of calls, for the watcher.
use orascout.Base.{Option, none, some, List, ◌∷◌, Result, ok, err, Bytes}
use orascout.Host.{
  OsResult, Act, done, after, call, ◌>>=◌, ◌>>◌, mkdir_all, write_file, rename, read_file,
}
use orascout.Paths.{dir}
use orascout.State.{
  Entry, FileShape, Store, StateError, mkdir_failed, marshal_failed, write_failed, rename_failed,
  nil_map, open_store, tmp_of,
}

abbrev pub Try : Type 0 → Type 0
Try A = Act (Result StateError A)

abbrev pub or_error : {A : Type 0} → StateError → OsResult A → Try A
or_error e (ok a) = done (ok a)
or_error e (err f) = done (err e)

abbrev pub os : {A : Type 0} → StateError → Act (OsResult A) → Try A
os e m = after m (or_error e)

-- `Open(path)`
unfoldable pub open_program : (Bytes → FileShape → Option FileShape) → Bytes → Try Store
open_program unmarshal path =
    after (call (read_file path)) (λ r. done (open_store unmarshal path r))

module _ (marshal : FileShape → Option Bytes) where
  abbrev pub marshalled : Option Bytes → Try Bytes
  marshalled none = done (err marshal_failed)
  marshalled (some buf) = done (ok buf)

  -- `(*Store) saveLocked()`
  unfoldable pub save_program : Store → Try (Unit {0})
  save_program s = do
    os mkdir_failed (call (mkdir_all (dir s.path) 493))
    buf ← marshalled (marshal s.shape)
    os write_failed (call (write_file (tmp_of s.path) buf))
    os rename_failed (call (rename (tmp_of s.path) s.path))

  abbrev pub set_entries :
      Store
      → Bytes
      → Entry
      → Option (List (Bytes × Entry))
      → Act (Result StateError (Unit {0}) × Store)
  set_entries s ref e none = done (err nil_map, s)
  set_entries s ref e (some entries) =
      let s' : Store = record {
        path = s.path;
        shape = record { schema = s.shape.schema; entries = some ((ref, e) ∷ entries) };
      } in
      after (save_program s') (λ r. done (r, s'))

  -- `(*Store) Set(ref, e)`, with the store that it leaves.
  unfoldable pub set_program : Store → Bytes → Entry → Act (Result StateError (Unit {0}) × Store)
  unfolding save_program
  set_program s ref e = set_entries s ref e s.shape.entries
