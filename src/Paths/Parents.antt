-- ===== src/Paths/Parents.antt =====
-- The directory of a path, and paths below a directory, by their elements.
use orascout.Base.{
  ℕ, ◌≡◌, refl, sym, ap, ◌∙◌, subst, ◌≢◌, inl, inr, List, [], ◌∷◌, ◌++◌, arith, ◌==◌, ==_iff,
  Bool-cases, Bytes,
}
use orascout.Strings.{split, cons_head}
use orascout.Paths.{dir_part, cons_dir}
use orascout.Paths.Elements.{NoSlash, split-ne-nil}

-- A path is its part up to the last slash, and the rest.
pub record LastPart (s : Bytes) : Type 0 where
  pub init : List Bytes
  pub last : Bytes
  pub whole : split s b'/' ≡ init ++ last ∷ []
  pub parent : split (dir_part s) b'/' ≡ init ++ [] ∷ []
  pub text : s ≡ dir_part s ++ last
  pub no_slash : NoSlash last

split-eq-nil : (s : Bytes) → split s b'/' ≡ [] ∷ [] → s ≡ []
unfolding split
split-eq-nil [] h = refl
split-eq-nil (a ∷ s) h = ground (arith, split-ne-nil s)

pub split_slash : (s : Bytes) → split (b'/' ∷ s) b'/' ≡ [] ∷ split s b'/'
unfolding split
split_slash s = refl

split_other : (a : ℕ) (s : Bytes) → a ≢ b'/' → split (a ∷ s) b'/' ≡ cons_head a (split s b'/')
unfolding split
split_other a s h = ground arith

cons_dir-slash : (d : Bytes) → cons_dir (b'/' ∷ []) d ≡ b'/' ∷ d
cons_dir-slash [] = refl
cons_dir-slash (c ∷ d) = refl

pub dir_part-slash : (s : Bytes) → dir_part (b'/' ∷ s) ≡ b'/' ∷ dir_part s
unfolding dir_part
dir_part-slash s = cons_dir-slash (dir_part s)

dir_part_none : (a : ℕ) (s : Bytes) → a ≢ b'/' → dir_part s ≡ [] → dir_part (a ∷ s) ≡ []
unfolding dir_part
dir_part_none a s n e = rw e (ground arith)

dir_part_some :
    (a : ℕ) (s : Bytes) (c : ℕ) (d : Bytes) → dir_part s ≡ c ∷ d → dir_part (a ∷ s) ≡ a ∷ c ∷ d
unfolding dir_part
dir_part_some a s c d e = rw e

split_nil : split [] b'/' ≡ [] ∷ []
unfolding split
split_nil = refl

module _ (a : ℕ) (s : Bytes) (n : a ≢ b'/') where
  last_part_at :
      (d : Bytes) (init : List Bytes) (last : Bytes)
      → dir_part s ≡ d
      → split s b'/' ≡ init ++ last ∷ []
      → split d b'/' ≡ init ++ [] ∷ []
      → s ≡ d ++ last
      → NoSlash last
      → LastPart (a ∷ s)
  last_part_at d [] last e w p t k =
      let none_left : dir_part (a ∷ s) ≡ [] = dir_part_none a s n (e ∙ split-eq-nil d p) in
      record {
        init = [];
        last = a ∷ last;
        whole = split_other a s n ∙ ap (cons_head a) w;
        parent = rw none_left split_nil;
        text = rw none_left (ap (◌∷◌ a) (t ∙ ap (λ x. x ++ last) (split-eq-nil d p)));
        no_slash = (n, k);
      }
  last_part_at [] (h ∷ hs) last e w p t k = absurd (not_nil hs (rw split_nil at p))
    where
      not_nil : (xs : List Bytes) → [] ∷ [] ≡ h ∷ (xs ++ [] ∷ []) → ⊥
      not_nil [] q = cc q
      not_nil (x ∷ xs) q = cc q
  last_part_at (c ∷ d) (h ∷ hs) last e w p t k =
      let longer : dir_part (a ∷ s) ≡ a ∷ c ∷ d = dir_part_some a s c d e in
      record {
        init = (a ∷ h) ∷ hs;
        last = last;
        whole = split_other a s n ∙ ap (cons_head a) w;
        parent = rw longer (split_other a (c ∷ d) n ∙ ap (cons_head a) p);
        text = rw longer (ap (◌∷◌ a) t);
        no_slash = k;
      }

last_part-slash : (s : Bytes) → LastPart s → LastPart (b'/' ∷ s)
last_part-slash s l = record {
  init = [] ∷ l.init;
  last = l.last;
  whole = split_slash s ∙ ap (◌∷◌ []) l.whole;
  parent = rw dir_part-slash (split_slash (dir_part s) ∙ ap (◌∷◌ []) l.parent);
  text = rw dir_part-slash (ap (◌∷◌ b'/') l.text);
  no_slash = l.no_slash;
}

pub last_part : (s : Bytes) → LastPart s
last_part [] = record {
  init = [];
  last = [];
  whole = split_nil;
  parent = unfold dir_part in split_nil;
  text = unfold dir_part in refl;
  no_slash = tt;
}
last_part (a ∷ s) = elim (Bool-cases (a == b'/')) [
  | inl slash ↦
      subst (λ x. LastPart (x ∷ s)) (sym ((==_iff a b'/').0 slash))
        (last_part-slash s (last_part s))
  | inr other ↦
      let l = last_part s in
      last_part_at a s (ground arith) (dir_part s) l.init l.last refl l.whole l.parent l.text
        l.no_slash
]
