-- ===== src/Strings/Laws.antt =====
-- What the searches find.
use orascout.Base.{ap, inr, inl, Bool-cases, true, [], ◌∷◌, ◌++◌, ◌≡◌, ◌↔◌, refl, arith, Bytes}
use orascout.Strings.Search.{has_prefix, contains}

pub has_prefix_iff :
    (s prefix : Bytes) → (has_prefix s prefix ≡ true) ↔ ((rest : Bytes) × (s ≡ prefix ++ rest))
unfolding has_prefix
has_prefix_iff s [] = ((λ _. (s, refl)), λ _. refl)
has_prefix_iff [] (b ∷ prefix) = (cc, λ h. cc h.1)
has_prefix_iff (a ∷ s) (b ∷ prefix) = (
  λ h. let (rest, e) = (has_prefix_iff s prefix).0 (ground arith) in (rest, ground arith),
  λ h. let e = (has_prefix_iff s prefix).1 (h.0, cc h.1) in ground (arith, h.1),
)

-- `sub` stands somewhere in `s`.
abbrev pub Occurs : Bytes → Bytes → Type 0
Occurs sub s = (before after : Bytes) × (s ≡ before ++ (sub ++ after))

contains-Occurs : (s sub : Bytes) → contains s sub ≡ true → Occurs sub s
unfolding contains
contains-Occurs [] [] h = ([], [], refl)
contains-Occurs [] (b ∷ sub) h = cc
contains-Occurs (a ∷ s) sub h = elim (Bool-cases (has_prefix (a ∷ s) sub)) [
  | inl here ↦ let (rest, e) = (has_prefix_iff (a ∷ s) sub).0 here in ([], rest, e)
  | inr later ↦
      let (before, after, e) = contains-Occurs s sub (ground arith) in
      (a ∷ before, after, ap (◌∷◌ a) e)
]

contains-append : (before sub after : Bytes) → contains (before ++ (sub ++ after)) sub ≡ true
unfolding contains
contains-append [] [] [] = refl
contains-append [] [] (c ∷ after) = refl
contains-append [] (b ∷ sub) after =
    ground (arith, (has_prefix_iff (sub ++ after) sub).1 (after, refl))
contains-append (a ∷ before) sub after = ground (arith, contains-append before sub after)

pub contains_iff : (s sub : Bytes) → (contains s sub ≡ true) ↔ Occurs sub s
contains_iff s sub = (contains-Occurs s sub, λ h. rw h.2 (contains-append h.0 sub h.1))
