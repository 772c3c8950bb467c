-- ===== src/State/Tests.antt =====
-- The store with a codec of its own, and the theorems at a store with one entry.
use orascout.Base.{
  ◌↔◌, ℕ, zero, suc, ◌≡◌, refl, ap, subst, true, false, Option, none, some, List, [], ◌∷◌, ◌++◌,
  ◌==◌, length, take, Bytes, codes,
}
use orascout.Base.Int.{ℤ, pos}
use orascout.State.{Entry, FileShape, Store, Disk, Faults, set, get, empty_shape, save_locked}
use orascout.State.Laws.{IsAtomic, save_locked-IsAtomic}
use orascout.State.Program.{set_program}
use orascout.State.Refines.{Behaves, set_program-Refines}
use orascout.State.Reopen.{IsReadBack, IsRecorded, set-IsRecorded, updated}

-- Texts are written with their lengths before them.
abbrev text_out : Bytes → Bytes
text_out s = length s ∷ s

abbrev time_of : ℤ → ℕ
time_of (pos n) = n
time_of (ℤ.negsuc n) = 0

abbrev entries_out : List (Bytes × Entry) → Bytes
entries_out [] = []
entries_out ((k, e) ∷ es) =
    time_of e.deployed_at
    ∷ (text_out k ++ text_out e.digest ++ text_out e.deploy_type ++ entries_out es)

abbrev marshal : FileShape → Option Bytes
marshal shape =
    some (time_of shape.schema ∷ elim shape.entries [ none ↦ [] | some es ↦ entries_out es ])

abbrev text_in : Bytes → Bytes × Bytes
text_in [] = ([], [])
text_in (n ∷ s) = (take n s, elim (n == 0) [ true ↦ s | false ↦ rest_of n s ])
  where
    rest_of : ℕ → Bytes → Bytes
    rest_of zero s = s
    rest_of (suc n) [] = []
    rest_of (suc n) (c ∷ s) = rest_of n s

entries_in : ℕ → Bytes → List (Bytes × Entry)
entries_in zero s = []
entries_in (suc fuel) [] = []
entries_in (suc fuel) (t ∷ s) =
    let (k, s1) = text_in s in
    let (d, s2) = text_in s1 in
    let (y, s3) = text_in s2 in
    (k, record { digest = d; deployed_at = pos t; deploy_type = y }) ∷ entries_in fuel s3

abbrev unmarshal : Bytes → FileShape → Option FileShape
unfolding entries_in
unmarshal [] shape = none
unmarshal (v ∷ s) shape = some (record { schema = pos v; entries = some (entries_in (length s) s) })

abbrev path : Bytes
unfolding codes
path = codes "/s/state.json"

abbrev entry : Entry
unfolding codes
entry = record { digest = codes "sha256:1"; deployed_at = pos 7; deploy_type = codes "jar" }

abbrev store : Store
store = record { path = path; shape = empty_shape }

abbrev no_disk : Disk
no_disk q = none

abbrev no_faults : Faults
no_faults = record { mkdir = false; write = false; rename = false; torn = none }

abbrev key : Bytes
unfolding codes
key = codes "r:1"

abbrev shape : FileShape
shape = record { schema = pos 1; entries = some ((key, entry) ∷ []) }

abbrev text_of : Option Bytes → Bytes
text_of none = []
text_of (some t) = t

shape-IsReadBack : IsReadBack unmarshal marshal shape
unfolding unmarshal entries_in codes key entry
shape-IsReadBack = record {
  not_empty = λ text h p. cc (h, p);
  same = λ text h.
      (shape, subst (λ t. unmarshal t empty_shape ≡ some shape) (ap text_of h) refl, λ ref. refl);
}

set-IsRecorded_example :
    let out = set marshal no_faults store key entry no_disk in
    IsRecorded unmarshal marshal path (updated (get store) key entry) no_disk out.0 out.1 out.2
set-IsRecorded_example =
    set-IsRecorded unmarshal marshal no_faults store key entry no_disk [] refl shape-IsReadBack

save_locked-IsAtomic_example :
    let out = save_locked marshal no_faults store no_disk in
    IsAtomic path (marshal empty_shape) no_disk out.0 out.1
save_locked-IsAtomic_example = save_locked-IsAtomic marshal no_faults store no_disk

set_program-Refines_example :
    let x = set marshal no_faults store key entry no_disk in
    Behaves marshal no_disk (set_program marshal store key entry) x
    ↔ ((f : Faults) × (set marshal f store key entry no_disk ≡ x))
set_program-Refines_example =
    set_program-Refines marshal store key entry no_disk
      (set marshal no_faults store key entry no_disk)
