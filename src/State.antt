-- ===== src/State.antt =====
-- internal/state/state.go: the store of the last deployed digests. json.Unmarshal and
-- json.MarshalIndent are parameters. The disk maps paths to the contents of regular files; what may
-- fail in a save is given by `Faults`. The mutex makes each operation one step.
pub mod Laws
pub mod Reopen
pub mod Program
pub mod Refines
pub mod Tests
use orascout.Base.{
  Bool, Option, none, some, List, [], ◌∷◌, ◌++◌, if◌then◌else◌, Result, ok, err, Bytes, codes, eqb,
}
use orascout.Base.Int.{ℤ}
use orascout.Host.{OsResult, not_exist}

-- `DeployedAt` in nanoseconds.
pub record Entry : Type 0 where
  pub digest : Bytes
  pub deployed_at : ℤ
  pub deploy_type : Bytes

-- `fileShape`. A nil map has no entries, and cannot be written to.
pub record FileShape : Type 0 where
  pub schema : ℤ
  pub entries : Option (List (Bytes × Entry))

pub record Store : Type 0 where
  pub path : Bytes
  pub shape : FileShape

pub data StateError : Type 0 where
  read_failed parse_failed mkdir_failed marshal_failed write_failed rename_failed : StateError
  nil_map : StateError

abbrev pub Disk : Type 0
Disk = Bytes → Option Bytes

abbrev pub put : Disk → Bytes → Option Bytes → Disk
put disk p content q = if eqb q p then content else disk q

-- The calls of a save that fail, and what a failed write leaves in its file.
pub record Faults : Type 0 where
  pub mkdir : Bool
  pub write : Bool
  pub rename : Bool
  pub torn : Option Bytes

abbrev pub empty_shape : FileShape
empty_shape = record { schema = ℤ.pos 1; entries = some [] }

-- `if s.data.Entries == nil { … }`
abbrev pub made : Option (List (Bytes × Entry)) → Option (List (Bytes × Entry))
made none = some []
made (some entries) = some entries

abbrev pub non_nil : FileShape → FileShape
non_nil shape = record { schema = shape.schema; entries = made shape.entries }

module _ (unmarshal : Bytes → FileShape → Option FileShape) where
  abbrev pub parsed : Bytes → Option FileShape → Result StateError Store
  parsed path none = err parse_failed
  parsed path (some shape) = ok (record { path = path; shape = non_nil shape })

  -- `Open(path)`, from the reply of `os.ReadFile`.
  unfoldable pub open_store : Bytes → OsResult Bytes → Result StateError Store
  open_store path (err not_exist) = ok (record { path = path; shape = empty_shape })
  open_store path (err e) = err read_failed
  open_store path (ok []) = ok (record { path = path; shape = empty_shape })
  open_store path (ok (c ∷ raw)) = parsed path (unmarshal (c ∷ raw) empty_shape)

-- The value of a key in a map.
abbrev pub lookup : List (Bytes × Entry) → Bytes → Option Entry
lookup [] ref = none
lookup ((key, e) ∷ entries) ref = if eqb ref key then some e else lookup entries ref

abbrev pub get_in : Option (List (Bytes × Entry)) → Bytes → Option Entry
get_in none ref = none
get_in (some entries) ref = lookup entries ref

-- `(*Store) Get(ref)`
unfoldable pub get : Store → Bytes → Option Entry
get s ref = get_in s.shape.entries ref

abbrev pub tmp_of : Bytes → Bytes
unfolding codes
tmp_of path = path ++ codes ".tmp"

abbrev pub renamed : Faults → Bytes → Disk → Result StateError (Unit {0}) × Disk
renamed f path disk =
    if f.rename
    then (err rename_failed, disk)
    else (ok tt, put (put disk path (disk (tmp_of path))) (tmp_of path) none)

abbrev pub written : Faults → Bytes → Disk → Option Bytes → Result StateError (Unit {0}) × Disk
written f path disk none = (err marshal_failed, disk)
written f path disk (some buf) =
    if f.write
    then (err write_failed, put disk (tmp_of path) f.torn)
    else renamed f path (put disk (tmp_of path) (some buf))

module _ (marshal : FileShape → Option Bytes) where
  -- `(*Store) saveLocked()`
  unfoldable pub save_locked : Faults → Store → Disk → Result StateError (Unit {0}) × Disk
  save_locked f s disk =
      if f.mkdir then (err mkdir_failed, disk) else written f s.path disk (marshal s.shape)

  abbrev pub saved :
      Store → Result StateError (Unit {0}) × Disk → Result StateError (Unit {0}) × Store × Disk
  saved s (r, disk) = (r, s, disk)

  abbrev pub set_in :
      Faults
      → Store
      → Bytes
      → Entry
      → Disk
      → Option (List (Bytes × Entry))
      → Result StateError (Unit {0}) × Store × Disk
  set_in f s ref e disk none = (err nil_map, s, disk)
  set_in f s ref e disk (some entries) =
      let s' : Store = record {
        path = s.path;
        shape = record { schema = s.shape.schema; entries = some ((ref, e) ∷ entries) };
      } in
      saved s' (save_locked f s' disk)

  -- `(*Store) Set(ref, e)`
  unfoldable pub set :
      Faults → Store → Bytes → Entry → Disk → Result StateError (Unit {0}) × Store × Disk
  set f s ref e disk = set_in f s ref e disk s.shape.entries
