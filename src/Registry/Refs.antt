-- ===== src/Registry/Refs.antt =====
-- A reference that is put together from a host, a path and a tag is taken apart into them.
use orascout.Base.{
  ℕ, suc, ◌-◌, ◌≡◌, refl, ◌≢◌, true, false, [], ◌∷◌, append_assoc, ◌++◌, arith, ltb, lt→ltb, length,
  length-append, All, take-length, drop-length, ok, Bytes, is_empty,
}
use orascout.Strings.{trim_space, index_suc, last_index_suc}
use orascout.Registry.{split_host, split_trimmed, split_ref}

-- The byte does not occur.
abbrev pub Lacks : ℕ → Bytes → Type 0
Lacks c = All (λ a. a ≢ c)

index_suc-append : (c : ℕ) (a b : Bytes) → Lacks c a → index_suc (a ++ c ∷ b) c ≡ suc (length a)
unfolding index_suc
index_suc-append c [] b h = ground arith
index_suc-append c (x ∷ a) b h = ground (arith, h.0, index_suc-append c a b h.1)

last_index_suc-Lacks : (c : ℕ) (s : Bytes) → Lacks c s → last_index_suc s c ≡ 0
unfolding last_index_suc
last_index_suc-Lacks c [] h = refl
last_index_suc-Lacks c (x ∷ s) h = ground (arith, h.0, last_index_suc-Lacks c s h.1)

last_index_suc-append :
    (c : ℕ) (a b : Bytes) → Lacks c b → last_index_suc (a ++ c ∷ b) c ≡ suc (length a)
unfolding last_index_suc
last_index_suc-append c [] b h = ground (arith, last_index_suc-Lacks c b h)
last_index_suc-append c (x ∷ a) b h = ground (arith, last_index_suc-append c a b h)

suc-sub-one : (n : ℕ) → suc n - 1 ≡ n
suc-sub-one n = omega arith

split_host-join :
    (host path tag : Bytes)
    → Lacks b'/' host
    → split_host (host ++ b'/' ∷ path) tag ≡ ok (record { host = host; path = path; tag = tag })
unfolding split_host
split_host-join host path tag h =
    rw (index_suc-append b'/' host path h, suc-sub-one)
      (rw (take-length host (b'/' ∷ path), drop-length host b'/' path) (ground arith))

nonempty : (a : Bytes) (c : ℕ) (b : Bytes) → is_empty (a ++ c ∷ b) ≡ false
nonempty [] c b = refl
nonempty (x ∷ a) c b = refl

first_slash :
    (host path tag : Bytes)
    → Lacks b'/' host
    → index_suc (host ++ b'/' ∷ path ++ b':' ∷ tag) b'/' ≡ suc (length host)
first_slash host path tag h =
    rw (append_assoc host (b'/' ∷ path) (b':' ∷ tag))
      (index_suc-append b'/' host (path ++ b':' ∷ tag) h)

slash_first :
    (host path tag : Bytes)
    → Lacks b'/' host
    → Lacks b':' tag
    → let r = host ++ b'/' ∷ path ++ b':' ∷ tag in
      ltb (index_suc r b'/') (last_index_suc r b':') ≡ true
slash_first host path tag h t =
    rw (first_slash host path tag h, last_index_suc-append b':' (host ++ b'/' ∷ path) tag t)
      (lt→ltb _ _ (omega (arith, length-append host (b'/' ∷ path))))

split_trimmed-join :
    (host path tag : Bytes)
    → Lacks b'/' host
    → Lacks b':' tag
    → split_trimmed (host ++ b'/' ∷ path ++ b':' ∷ tag)
      ≡ ok (record { host = host; path = path; tag = tag })
unfolding split_trimmed
split_trimmed-join host path tag h t =
    let at = host ++ b'/' ∷ path in
    rw (nonempty at b':' tag, slash_first host path tag h t)
      (rw (last_index_suc-append b':' at tag t, suc-sub-one)
        (rw (take-length at (b':' ∷ tag), drop-length at b':' tag)
          (split_host-join host path tag h)))

-- A reference without white space around it, with a host that holds no slash, any path and a tag
-- that holds no colon, is split into these.
pub split_ref-join :
    (host path tag : Bytes)
    → trim_space (host ++ b'/' ∷ path ++ b':' ∷ tag) ≡ host ++ b'/' ∷ path ++ b':' ∷ tag
    → Lacks b'/' host
    → Lacks b':' tag
    → split_ref (host ++ b'/' ∷ path ++ b':' ∷ tag)
      ≡ ok (record { host = host; path = path; tag = tag })
unfolding split_ref
split_ref-join host path tag trimmed h t = rw trimmed (split_trimmed-join host path tag h t)
