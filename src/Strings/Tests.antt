-- ===== src/Strings/Tests.antt =====
-- Runs of the string functions.
use orascout.Base.{◌≡◌, refl, [], ◌∷◌, ◌++◌, some, true, false, codes}
use orascout.Strings.Search.{
  has_prefix, contains, trim_suffix, last_index_suc, cut, split, replace_all,
}
use orascout.Strings.Trim.{trim_space, trim_byte}

trims : trim_space (codes " \t a b" ++ 0xC2 ∷ 0xA0 ∷ 32 ∷ []) ≡ codes "a b"
unfolding trim_space codes
trims = refl

splits : split (codes "/a//b/") b'/' ≡ [] ∷ codes "a" ∷ [] ∷ codes "b" ∷ [] ∷ []
unfolding split codes
splits = refl

searches :
    (contains (codes "/opt/../x") (codes "..") ≡ true)
    × (has_prefix (codes "/opt") (codes "/op/") ≡ false)
    × (last_index_suc (codes "host:5000/a:b") b':' ≡ 12)
    × (cut (codes "a:b:c") b':' ≡ some (codes "a", codes "b:c"))
unfolding contains last_index_suc cut codes
searches = (refl, refl, refl, refl)

replaces :
    (replace_all (codes "-f {file} {file}") (codes "{file}") (codes "/x") ≡ codes "-f /x /x")
    × (trim_suffix (codes "docker.io/org/") (codes "/") ≡ codes "docker.io/org")
    × (trim_byte (codes "//a/b/") b'/' ≡ codes "a/b")
unfolding replace_all trim_suffix trim_byte codes
replaces = (refl, refl, refl)
