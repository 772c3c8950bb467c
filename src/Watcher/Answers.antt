-- ===== src/Watcher/Answers.antt =====
-- What the registry was asked in a run of the client, and what it answered.
use orascout.Base.{
  sym, ◌≡◌, ap, ◌∙◌, ◌⊎◌, Option, none, some, List, [], ◌∷◌, ◌++◌, append-nil, append_assoc, take,
  ok, Bytes,
}
use orascout.Annotations.{RawAnnotations}
use orascout.Host.{read_body, resolve, fetch_reference, pull_copy, Call, Reply}
use orascout.Host.Runs.{Event}
use orascout.Registry.{Ref, split_ref}
use orascout.Registry.Client.{Client, remote_of, manifest_limit}

-- The call is among the events, with this reply.
pub record Made (c : Call) (r : Reply c) (es : List Event) : Type 0 where
  pub before : List Event
  pub rest : List Event
  pub joined : es ≡ before ++ record { request = c; reply = r } ∷ rest

pub Made-within :
    {c : Call} {r : Reply c} {es mid : List Event} (pre post : List Event)
    → es ≡ pre ++ (mid ++ post)
    → Made c r mid
    → Made c r es
Made-within pre post j m = record {
  before = pre ++ m.before;
  rest = m.rest ++ post;
  joined = j ∙ ap (λ x. pre ++ (x ++ post)) m.joined ∙ simp append_assoc;
}

-- Nothing comes after the part at the end.
pub at_end :
    {es : List Event} (before rest : List Event) → es ≡ before ++ rest → es ≡ before ++ (rest ++ [])
at_end before rest j = j ∙ ap (λ x. before ++ x) (sym (append-nil rest))

-- The annotations of a manifest: those in its text, as far as it is read, or none if it has none.
abbrev pub IsDecoded : (Bytes → Option (Option RawAnnotations)) → Bytes → RawAnnotations → Type 0
IsDecoded decode body raw =
    (decode (take manifest_limit body) ≡ some (some raw))
    ⊎ ((decode (take manifest_limit body) ≡ some none) × (raw ≡ []))

module _ (c : Client) (ref : Bytes) where
  -- The registry resolved the tag of the reference to the digest.
  pub record IsResolved (digest : Bytes) (es : List Event) : Type 0 where
    pub parts : Ref
    pub parsed : split_ref ref ≡ ok parts
    pub made : Made (resolve (remote_of c parts) parts.tag) (ok digest) es

  -- The annotations are those of the manifest that was fetched by the tag.
  pub record IsAnnotated (decode : Bytes → Option (Option RawAnnotations)) (raw : RawAnnotations)
      (es : List Event) : Type 0 where
    pub parts : Ref
    pub parsed : split_ref ref ≡ ok parts
    pub fetched : Made (fetch_reference (remote_of c parts) parts.tag) (ok tt) es
    pub body : Bytes
    pub read : Made read_body (ok body) es
    pub decoded : IsDecoded decode body raw

  -- The artifact that the tag then named was copied into the directory.
  pub record IsPulled (dest_dir : Bytes) (es : List Event) : Type 0 where
    pub parts : Ref
    pub parsed : split_ref ref ≡ ok parts
    pub copied : Made (pull_copy (remote_of c parts) parts.tag dest_dir) (ok tt) es

module _ {c : Client} {ref : Bytes} where
  pub IsResolved-within :
      {digest : Bytes} {es mid : List Event} (pre post : List Event)
      → es ≡ pre ++ (mid ++ post)
      → IsResolved c ref digest mid
      → IsResolved c ref digest es
  IsResolved-within pre post j m = record {
    parts = m.parts;
    parsed = m.parsed;
    made = Made-within pre post j m.made;
  }

  pub IsAnnotated-within :
      {decode : Bytes → Option (Option RawAnnotations)} {raw : RawAnnotations} {es mid : List Event}
      (pre post : List Event)
      → es ≡ pre ++ (mid ++ post)
      → IsAnnotated c ref decode raw mid
      → IsAnnotated c ref decode raw es
  IsAnnotated-within pre post j m = record {
    parts = m.parts;
    parsed = m.parsed;
    fetched = Made-within pre post j m.fetched;
    body = m.body;
    read = Made-within pre post j m.read;
    decoded = m.decoded;
  }

  pub IsPulled-within :
      {dest_dir : Bytes} {es mid : List Event} (pre post : List Event)
      → es ≡ pre ++ (mid ++ post)
      → IsPulled c ref dest_dir mid
      → IsPulled c ref dest_dir es
  IsPulled-within pre post j m = record {
    parts = m.parts;
    parsed = m.parsed;
    copied = Made-within pre post j m.copied;
  }
