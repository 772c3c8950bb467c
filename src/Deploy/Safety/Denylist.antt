-- ===== src/Deploy/Safety/Denylist.antt =====
-- The entries of the two denylists are absolute and clean, and no subtree is the root. So the
-- string tests of the source on them are tests on the elements of the path.
use orascout.Base.{
  ◌≡◌, refl, sym, ap, ◌∙◌, ◌≢◌, ◌↔◌, Bool, true, false, not, ◌&&◌, List, [], ◌∷◌, arith, All, all,
  Bytes, codes, eqb, eqb_iff,
}
use orascout.Paths.{is_abs, clean, elements, render}
use orascout.Paths.Inside.{Inside, under, under_iff}
use orascout.Paths.Elements.{clean_abs, elements-clean}
use orascout.Deploy.Safety.{denied_exact, denied_subtrees}

pub record IsCleanAbs (d : Bytes) : Type 0 where
  pub absolute : is_abs d ≡ true
  pub stable : clean d ≡ d

-- A directory that is not the root.
pub record IsDirectory (d : Bytes) : Type 0 where
  pub absolute : is_abs d ≡ true
  pub stable : clean d ≡ d
  pub not_root : elements d ≢ []

abbrev is_clean_abs : Bytes → Bool
is_clean_abs d = is_abs d && eqb (clean d) d

all-IsCleanAbs : (ds : List Bytes) → all is_clean_abs ds ≡ true → All IsCleanAbs ds
all-IsCleanAbs [] h = tt
all-IsCleanAbs (d ∷ ds) h = (
  record { absolute = ground arith; stable = (eqb_iff (clean d) d).0 (ground arith) },
  all-IsCleanAbs ds (ground arith),
)

abbrev is_nil : List Bytes → Bool
is_nil [] = true
is_nil _ = false

not-is_nil : (es : List Bytes) → is_nil es ≡ false → es ≢ []
not-is_nil [] h = cc
not-is_nil (e ∷ es) h = λ p. cc p

abbrev is_directory : Bytes → Bool
is_directory d = is_clean_abs d && not (is_nil (elements d))

all-IsDirectory : (ds : List Bytes) → all is_directory ds ≡ true → All IsDirectory ds
all-IsDirectory [] h = tt
all-IsDirectory (d ∷ ds) h = (
  record {
    absolute = ground arith;
    stable = (eqb_iff (clean d) d).0 (ground arith);
    not_root = not-is_nil (elements d) (ground arith);
  },
  all-IsDirectory ds (ground arith),
)

denied_exact-clean : all is_clean_abs denied_exact ≡ true
unfolding codes clean
denied_exact-clean = refl

denied_subtrees-clean : all is_directory denied_subtrees ≡ true
unfolding codes clean
denied_subtrees-clean = refl

pub denied_exact-IsCleanAbs : All IsCleanAbs denied_exact
denied_exact-IsCleanAbs = all-IsCleanAbs denied_exact denied_exact-clean

pub denied_subtrees-IsDirectory : All IsDirectory denied_subtrees
denied_subtrees-IsDirectory = all-IsDirectory denied_subtrees denied_subtrees-clean

module _ (p : Bytes) (absolute : is_abs p ≡ true) where
  -- A cleaned path is a listed one exactly if it has the same elements.
  pub eqb-clean_iff :
      (d : Bytes) → IsCleanAbs d → (eqb (clean p) d ≡ true) ↔ (elements p ≡ elements d)
  eqb-clean_iff d q = (
    λ h. sym (elements-clean p absolute) ∙ ap elements ((eqb_iff (clean p) d).0 h),
    λ e.
        (eqb_iff (clean p) d).1
          (clean_abs p absolute ∙ ap (render true) e ∙ sym (clean_abs d q.absolute) ∙ q.stable),
  )

  -- A cleaned path passes the containment test of a directory exactly if it lies in it.
  pub under-clean_iff :
      (d : Bytes) → IsDirectory d → (under (clean p) d ≡ true) ↔ Inside (elements d) (elements p)
  under-clean_iff d q = rw q.stable at (under_iff p d absolute q.absolute q.not_root)
