-- ===== src/Paths/Inside.antt =====
-- Containment of absolute paths: by their elements, and by the string test of the source,
-- `p == s || strings.HasPrefix(p, s+"/")`.
use orascout.Base.{
  Bool, true, false, ◌&&◌, ◌||◌, List, [], ◌∷◌, ◌++◌, ◌≡◌, ◌≢◌, ◌↔◌, refl, ap, ◌∙◌, arith, All,
  Bytes, eqb, eqb_iff,
}
use orascout.Strings.{has_prefix}
use orascout.Paths.{is_abs, elements, slashed, render, clean}
use orascout.Paths.Elements.{NoSlash, IsName, names-NoSlash, elements-IsName, clean_abs}

-- The path whose elements are `es` is the directory with the elements `ds`, or lies below it.
abbrev pub Inside : List Bytes → List Bytes → Type 0
Inside ds es = (rest : List Bytes) × (es ≡ ds ++ rest)

-- The string test.
abbrev pub under : Bytes → Bytes → Bool
under p s = eqb p s || has_prefix p (s ++ b'/' ∷ [])

-- The same by elements.
abbrev starts : List Bytes → List Bytes → Bool
starts [] es = true
starts (d ∷ ds) [] = false
starts (d ∷ ds) (e ∷ es) = eqb e d && starts ds es

starts_iff : (ds es : List Bytes) → (starts ds es ≡ true) ↔ Inside ds es
starts_iff [] es = ((λ _. (es, refl)), λ _. refl)
starts_iff (d ∷ ds) [] = (cc, λ h. cc h.1)
starts_iff (d ∷ ds) (e ∷ es) = (
  (λ h.
      let (rest, below) = (starts_iff ds es).0 (ground arith) in
      (rest, ground (arith, eqb_iff e d))),
  λ h. let tails = (starts_iff ds es).1 (h.0, cc (h.1)) in ground (arith, eqb_iff e d, h.1),
)

-- Behind one element there is nothing, or a slash.
data AtEnd : Bytes → Type 0 where
  nothing : AtEnd []
  slash : (s : Bytes) → AtEnd (b'/' ∷ s)

slashed-AtEnd : (es : List Bytes) → AtEnd (slashed es)
slashed-AtEnd [] = nothing
slashed-AtEnd (e ∷ es) = slash (e ++ slashed es)

under_one :
    (e d x y : Bytes)
    → NoSlash e
    → NoSlash d
    → AtEnd x
    → AtEnd y
    → under (e ++ x) (d ++ y) ≡ (eqb e d && under x y)
unfolding has_prefix
under_one [] [] x y n m a b = refl
under_one [] (c ∷ d) _ y n m nothing b = refl
under_one [] (c ∷ d) _ y n m (slash s) b = ground (arith, m.0)
under_one (c ∷ e) [] x _ n m a nothing = ground (arith, n.0)
under_one (c ∷ e) [] x _ n m a (slash s) = ground (arith, n.0)
under_one (c ∷ e) (b ∷ d) x y n m a k = ground (arith, under_one e d x y n.1 m.1 a k)

under-slashed :
    (ds es : List Bytes)
    → All NoSlash ds
    → All NoSlash es
    → under (slashed es) (slashed ds) ≡ starts ds es
unfolding has_prefix
under-slashed [] [] n m = refl
under-slashed [] (e ∷ es) n m = refl
under-slashed (d ∷ ds) [] n m = refl
under-slashed (d ∷ ds) (e ∷ es) n m =
    under_one e d (slashed es) (slashed ds) m.0 n.0 (slashed-AtEnd es) (slashed-AtEnd ds)
    ∙ ap (◌&&◌ (eqb e d)) (under-slashed ds es n.1 m.1)

-- The test on rendered paths, where the directory is not the root.
under-render :
    (ds es : List Bytes)
    → ds ≢ []
    → All IsName ds
    → All IsName es
    → under (render true es) (render true ds) ≡ starts ds es
unfolding has_prefix
under-render [] es ne n m = absurd (ne refl)
under-render (d ∷ ds) (e ∷ es) ne n m =
    under-slashed (d ∷ ds) (e ∷ es) (names-NoSlash (d ∷ ds) n) (names-NoSlash (e ∷ es) m)
under-render ([] ∷ ds) [] ne n m = absurd (n.0.ne_nil refl)
under-render ((c ∷ d) ∷ ds) [] ne n m = refl

-- The string test on cleaned absolute paths is containment, unless the directory is the root.
pub under_iff :
    (p d : Bytes)
    → is_abs p ≡ true
    → is_abs d ≡ true
    → elements d ≢ []
    → (under (clean p) (clean d) ≡ true) ↔ Inside (elements d) (elements p)
under_iff p d hp hd ne =
    rw
      (
        clean_abs p hp,
        clean_abs d hd,
        under-render _ _ ne (elements-IsName d hd) (elements-IsName p hp),
      )
      (starts_iff (elements d) (elements p))
