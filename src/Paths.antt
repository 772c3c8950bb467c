-- ===== src/Paths.antt =====
-- Go's packages path and path/filepath on Unix, as far as the program calls them. The two agree
-- there. `Clean` is written by its documented rules: it goes through the elements between the
-- slashes with a stack of those that it keeps.
pub mod Elements
pub mod Inside
pub mod Depth
pub mod Parents
pub mod Dirs
pub mod Extend
pub mod Joined
pub mod Tests
use orascout.Base.{
  Bool, true, false, ◌||◌, List, [], ◌∷◌, ◌++◌, reverse, ◌==◌, if◌then◌else◌, Bytes, eqb, is_empty,
}
use orascout.Strings.{split}

abbrev pub dot : Bytes
dot = b'.' ∷ []

abbrev pub dotdot : Bytes
dotdot = b'.' ∷ b'.' ∷ []

-- `path.IsAbs(s)`
abbrev pub is_abs : Bytes → Bool
is_abs [] = false
is_abs (c ∷ s) = c == b'/'

-- What ".." does to the kept elements, the last of which stands first.
abbrev pub go_up : Bool → List Bytes → List Bytes
go_up rooted [] = if rooted then [] else dotdot ∷ []
go_up rooted (top ∷ kept) = if eqb top dotdot then dotdot ∷ top ∷ kept else kept

abbrev pub keep : Bool → List Bytes → Bytes → List Bytes
keep rooted kept e =
    if is_empty e || eqb e dot then kept else if eqb e dotdot then go_up rooted kept else e ∷ kept

unfoldable pub walk : Bool → List Bytes → List Bytes → List Bytes
walk rooted kept [] = kept
walk rooted kept (e ∷ es) = walk rooted (keep rooted kept e) es

-- The elements of the cleaned path.
unfoldable pub elements : Bytes → List Bytes
unfolding walk split
elements s = reverse (walk (is_abs s) [] (split s b'/'))

abbrev pub slashed : List Bytes → Bytes
slashed [] = []
slashed (e ∷ es) = b'/' ∷ (e ++ slashed es)

abbrev pub render : Bool → List Bytes → Bytes
render true [] = b'/' ∷ []
render true (e ∷ es) = slashed (e ∷ es)
render false [] = dot
render false (e ∷ es) = e ++ slashed es

-- `path.Clean(s)` and `filepath.Clean(s)`
unfoldable pub clean : Bytes → Bytes
unfolding elements
clean s = render (is_abs s) (elements s)

abbrev pub cons_dir : Bytes → Bytes → Bytes
cons_dir a [] = if eqb a (b'/' ∷ []) then a else []
cons_dir a (b ∷ s) = a ++ b ∷ s

-- The text up to its last slash, with that slash; nothing if it has none.
unfoldable pub dir_part : Bytes → Bytes
dir_part [] = []
dir_part (a ∷ s) = cons_dir (a ∷ []) (dir_part s)

-- `path.Dir(s)` and `filepath.Dir(s)`
unfoldable pub dir : Bytes → Bytes
unfolding clean dir_part
dir s = clean (dir_part s)

-- `filepath.Join(a, b)`
unfoldable pub join : Bytes → Bytes → Bytes
unfolding clean
join [] [] = []
join [] (c ∷ b) = clean (c ∷ b)
join (c ∷ a) b = clean ((c ∷ a) ++ b'/' ∷ b)

-- The part behind the last slash.
abbrev last_name : Bytes → List Bytes → Bytes
last_name d [] = d
last_name d (e ∷ es) = last_name e es

-- The text without the slashes at its end.
abbrev trim_slashes : Bytes → Bytes
trim_slashes [] = []
trim_slashes (c ∷ s) = elim (trim_slashes s) [
  | [] ↦ if c == b'/' then [] else c ∷ []
  | d ∷ t ↦ c ∷ d ∷ t
]

abbrev base_of : Bytes → Bytes
base_of [] = b'/' ∷ []
base_of (c ∷ s) = last_name [] (split (c ∷ s) b'/')

-- `filepath.Base(s)`
unfoldable pub base : Bytes → Bytes
unfolding split
base [] = dot
base (c ∷ s) = base_of (trim_slashes (c ∷ s))
