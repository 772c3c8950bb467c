-- ===== src/State/Reopen.antt =====
-- What a store gives back after a record, and after it is opened again from the disk.
use orascout.Base.{
  ◌≡◌, refl, sym, ap, ◌∙◌, subst, ◌≢◌, ◌⊎◌, inl, inr, Option, none, some, List, [], ◌∷◌,
  if◌then◌else◌, Result, ok, err, Bytes, eqb,
}
use orascout.Host.{OsResult, not_exist}
use orascout.State.{
  set_in, set, non_nil, made, parsed, get, save_locked, Entry, FileShape, Store, StateError, Disk,
  Faults, empty_shape, open_store, get, get_in, save_locked, parsed, non_nil, made,
}
use orascout.State.Laws.{save_locked-IsAtomic}

-- The reply of `os.ReadFile` for a file with this content.
abbrev pub read_of : Option Bytes → OsResult Bytes
read_of none = err not_exist
read_of (some text) = ok text

-- The values of the store once `e` is recorded for `ref`.
abbrev pub updated : (Bytes → Option Entry) → Bytes → Entry → Bytes → Option Entry
updated value ref e ref' = if eqb ref' ref then some e else value ref'

module _ (unmarshal : Bytes → FileShape → Option FileShape)
    (marshal : FileShape → Option Bytes) where
  -- The text that JSON makes of this data is not empty, and read back gives every key its value.
  pub record IsReadBack (shape : FileShape) : Type 0 where
    pub not_empty : (text : Bytes) → marshal shape ≡ some text → text ≢ []
    pub same :
        (text : Bytes)
        → marshal shape ≡ some text
        → (back : FileShape) × (unmarshal text empty_shape ≡ some back)
          × ((ref : Bytes) → get_in back.entries ref ≡ get_in shape.entries ref)

  get-made :
      (entries : Option (List (Bytes × Entry))) (ref : Bytes)
      → get_in (made entries) ref ≡ get_in entries ref
  get-made none ref = refl
  get-made (some entries) ref = refl

  -- The store that is opened from this content of the file has these values.
  pub record Reopens (path : Bytes) (content : Option Bytes) (value : Bytes → Option Entry)
      : Type 0 where
    pub store : Store
    pub opened : open_store unmarshal path (read_of content) ≡ ok store
    pub values : (ref : Bytes) → get store ref ≡ value ref

  parsed-Reopens :
      (path text : Bytes) (shape : FileShape)
      → text ≢ []
      → unmarshal text empty_shape ≡ some shape
      → Reopens path (some text) (get_in shape.entries)
  unfolding open_store get
  parsed-Reopens path [] shape n h = absurd (n refl)
  parsed-Reopens path (c ∷ text) shape n h = record {
    store = record { path = path; shape = non_nil shape };
    opened = ap (parsed unmarshal path) h;
    values = get-made shape.entries;
  }

  text-Reopens :
      (path text : Bytes) (shape : FileShape)
      → IsReadBack shape
      → marshal shape ≡ some text
      → Reopens path (some text) (get_in shape.entries)
  text-Reopens path text shape r h =
      let (back, read, same) = r.same text h in
      let found = parsed-Reopens path text back (r.not_empty text h) read in
      record {
        store = found.store;
        opened = found.opened;
        values = λ ref. found.values ref ∙ same ref;
      }

  some_text-Reopens :
      (path : Bytes) (text content : Option Bytes) (shape : FileShape)
      → IsReadBack shape
      → marshal shape ≡ text
      → text ≢ none
      → content ≡ text
      → Reopens path content (get_in shape.entries)
  some_text-Reopens path none content shape r h n e = absurd (n refl)
  some_text-Reopens path (some text) content shape r h n e =
      subst (λ c. Reopens path c (get_in shape.entries)) (sym e) (text-Reopens path text shape r h)

  pub record IsRecorded (path : Bytes) (value : Bytes → Option Entry) (disk : Disk)
      (r : Result StateError (Unit {0})) (after : Store) (disk' : Disk) : Type 0 where
    pub memory : (ref : Bytes) → get after ref ≡ value ref
    pub kept :
        ((r ≡ ok tt) × Reopens path (disk' path) value) ⊎ ((r ≢ ok tt) × (disk' path ≡ disk path))

  recorded :
      (f : Faults) (s : Store) (disk : Disk)
      → IsReadBack s.shape
      → let out = save_locked marshal f s disk in
        IsRecorded s.path (get_in s.shape.entries) disk out.0 s out.1
  unfolding get
  recorded f s disk back =
      let atomic = save_locked-IsAtomic marshal f s disk in
      record {
        memory = λ ref. refl;
        kept = elim atomic.whole [
          | inl (good, full, text) ↦
              inl (good, some_text-Reopens s.path (marshal s.shape) _ s.shape back refl full text)
          | inr failed ↦ inr failed
        ];
      }

  -- Recording an entry in a store with a map, where JSON reads back what it writes of the new data:
  -- in memory the key has the entry and every other key its value, whether or not the save fails. If
  -- the save succeeds, so it is in a store that is opened from the file. If it fails, the file is as
  -- before.
  pub set-IsRecorded :
      (f : Faults) (s : Store) (ref : Bytes) (e : Entry) (disk : Disk)
      (entries : List (Bytes × Entry))
      → s.shape.entries ≡ some entries
      → IsReadBack (record { schema = s.shape.schema; entries = some ((ref, e) ∷ entries) })
      → let out = set marshal f s ref e disk in
        IsRecorded s.path (updated (get s) ref e) disk out.0 out.1 out.2
  unfolding set get
  set-IsRecorded f s ref e disk entries h back =
      let s' : Store = record {
        path = s.path;
        shape = record { schema = s.shape.schema; entries = some ((ref, e) ∷ entries) };
      } in
      subst
        (λ m.
          let out = set_in marshal f s ref e disk m in
          IsRecorded s.path (updated (get_in m) ref e) disk out.0 out.1 out.2)
        (sym h) (recorded f s' disk back)
