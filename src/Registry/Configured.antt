-- ===== src/Registry/Configured.antt =====
-- The references of a configuration, as the client takes them apart.
use orascout.Base.{
  Bool, true, false, if◌then◌else◌, ◌≡◌, sym, ap, ◌∙◌, List, [], ◌∷◌, ◌++◌, append_assoc, All, ok,
  Bytes, is_empty,
}
use orascout.Strings.{trim_space, trim_suffix}
use orascout.Config.{Config, RepoRef, parse_repo, parse_repos, parsed_repos}
use orascout.Registry.{split_ref}
use orascout.Registry.Refs.{Lacks, split_ref-join}

-- A reference with nothing to trim, and a tag of which no part could be taken for one.
abbrev pub IsPlain : RepoRef → Type 0
IsPlain ref = (trim_space ref.full_ref ≡ ref.full_ref) × Lacks b':' ref.tag

-- The client finds the host of the prefix, the name below the rest of it, and the tag.
abbrev pub IsFound : Bytes → Bytes → RepoRef → Type 0
IsFound host below ref =
    split_ref ref.full_ref ≡ ok (record { host = host; path = below ++ ref.name; tag = ref.tag })

module _ (prefix host below : Bytes) (slashless : Lacks b'/' host)
    (parts : trim_suffix prefix (b'/' ∷ []) ++ b'/' ∷ [] ≡ host ++ b'/' ∷ below) where
  joined :
      (name tag : Bytes)
      → trim_suffix prefix (b'/' ∷ []) ++ (b'/' ∷ (name ++ (b':' ∷ tag)))
        ≡ host ++ b'/' ∷ (below ++ name) ++ b':' ∷ tag
  joined name tag =
      let text = name ++ (b':' ∷ tag) in
      sym (append_assoc (trim_suffix prefix (b'/' ∷ [])) (b'/' ∷ []) text)
      ∙ ap (λ x. x ++ text) parts
      ∙ simp append_assoc

  IsPlain-IsFound :
      (ref : RepoRef)
      → ref.full_ref ≡ host ++ b'/' ∷ (below ++ ref.name) ++ b':' ∷ ref.tag
      → IsPlain ref
      → IsFound host below ref
  IsPlain-IsFound ref e (trimmed, plain) =
      ap split_ref e
      ∙ split_ref-join host (below ++ ref.name) ref.tag (sym (ap trim_space e) ∙ trimmed ∙ e)
          slashless plain

  parse_repo-IsFound :
      (r : Bytes) → IsPlain (parse_repo prefix r) → IsFound host below (parse_repo prefix r)
  unfolding parse_repo
  parse_repo-IsFound r plain =
      IsPlain-IsFound (parse_repo prefix r)
        (joined (parse_repo prefix r).name (parse_repo prefix r).tag) plain

  kept-IsFound :
      (b : Bool) (ref : RepoRef) (refs : List RepoRef)
      → (IsPlain ref → IsFound host below ref)
      → (All IsPlain refs → All (IsFound host below) refs)
      → All IsPlain (if b then refs else ref ∷ refs)
      → All (IsFound host below) (if b then refs else ref ∷ refs)
  kept-IsFound true ref refs h k plain = k plain
  kept-IsFound false ref refs h k plain = (h plain.0, k plain.1)

  parse_repos-IsFound :
      (repos : List Bytes)
      → All IsPlain (parse_repos prefix repos)
      → All (IsFound host below) (parse_repos prefix repos)
  unfolding parse_repos
  parse_repos-IsFound [] plain = tt
  parse_repos-IsFound (r ∷ repos) plain =
      kept-IsFound (is_empty (trim_space r)) (parse_repo prefix (trim_space r))
        (parse_repos prefix repos) (parse_repo-IsFound (trim_space r)) (parse_repos-IsFound repos)
        plain

-- Where the registry prefix, with one slash at its end, is a host without a slash, a slash and a rest,
-- the client takes the reference of every configured repository apart into this host, the repository's
-- name put behind the rest, and its tag. This asks that no reference begins or ends with white space
-- and that no tag holds a colon.
pub parsed_repos-IsFound :
    (cfg : Config) (host below : Bytes) (slashless : Lacks b'/' host)
    (parts : trim_suffix cfg.registry_prefix (b'/' ∷ []) ++ b'/' ∷ [] ≡ host ++ b'/' ∷ below)
    → All IsPlain (parsed_repos cfg)
    → All (IsFound host below) (parsed_repos cfg)
unfolding parsed_repos
parsed_repos-IsFound cfg host below slashless parts plain =
    parse_repos-IsFound cfg.registry_prefix host below slashless parts cfg.repos plain
