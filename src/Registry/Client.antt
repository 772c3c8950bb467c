-- ===== src/Registry/Client.antt =====
-- internal/registry/registry.go: the client, as programs of calls. The library oras-go is what replies
-- to them, and json.Unmarshal of a manifest is a parameter. Closing readers and stores, whose errors
-- are ignored, is left out, and so are the retries and the cache of the HTTP client.
use orascout.Base.{ℕ, Bool, Option, none, some, [], ◌∷◌, ◌++◌, take, Result, ok, err, Bytes, codes}
use orascout.Annotations.{RawAnnotations}
use orascout.Host.{
  Failure, OsResult, Act, done, after, call, ◌>>=◌, ◌>>◌, Remote, mkdir_all, new_repository,
  file_store, pack_manifest, tag_manifest, resolve, fetch_reference, read_body, pull_copy,
  push_copy, add_layer,
}
use orascout.Paths.{dir, base}
use orascout.Registry.{RefError, Ref, split_ref}

-- `Auth`
pub record Auth : Type 0 where
  pub username : Bytes
  pub password : Bytes
  pub token : Bytes

pub record Client : Type 0 where
  pub auth : Auth
  pub insecure : Bool

pub data RegistryError : Type 0 where
  bad_ref : RefError → RegistryError
  failed : Failure → RegistryError
  bad_manifest : RegistryError

abbrev pub Try : Type 0 → Type 0
Try A = Act (Result RegistryError A)

abbrev pub of_os : {A : Type 0} → OsResult A → Result RegistryError A
of_os (ok a) = ok a
of_os (err e) = err (failed e)

abbrev pub os : {A : Type 0} → Act (OsResult A) → Try A
os m = after m (λ r. done (of_os r))

abbrev pub of_ref : {A : Type 0} → Result RefError A → Result RegistryError A
of_ref (ok a) = ok a
of_ref (err e) = err (bad_ref e)

-- The repository that `repoAndTag` builds. Without any credential it is used anonymously, which is what
-- three empty texts stand for.
abbrev pub remote_of : Client → Ref → Remote
remote_of c r = record {
  name = r.host ++ b'/' ∷ r.path;
  plain_http = c.insecure;
  host = r.host;
  username = c.auth.username;
  password = c.auth.password;
  token = c.auth.token;
}

-- `(c *Client) repoAndTag(ref)`
unfoldable pub repo_and_tag : Client → Bytes → Try (Remote × Bytes)
repo_and_tag c ref = do
  r ← done (of_ref (split_ref ref))
  os (call (new_repository (r.host ++ b'/' ∷ r.path)))
  done (ok (remote_of c r, r.tag))

-- `(c *Client) ResolveDigest(ctx, ref)`
unfoldable pub resolve_digest : Client → Bytes → Try Bytes
unfolding repo_and_tag
resolve_digest c ref = repo_and_tag c ref >>= λ rt. os (call (resolve rt.0 rt.1))

-- 4 << 20
abbrev pub manifest_limit : ℕ
manifest_limit = 4_194_304

-- The annotations of a decoded manifest, nil or not.
abbrev pub or_none : Option (Option RawAnnotations) → Result RegistryError RawAnnotations
or_none none = err bad_manifest
or_none (some none) = ok []
or_none (some (some raw)) = ok raw

module _ (decode : Bytes → Option (Option RawAnnotations)) where
  -- `(c *Client) FetchAnnotations(ctx, ref)`
  unfoldable pub fetch_annotations : Client → Bytes → Try RawAnnotations
  unfolding repo_and_tag
  fetch_annotations c ref = do
    rt ← repo_and_tag c ref
    os (call (fetch_reference rt.0 rt.1))
    body ← os (call read_body)
    done (or_none (decode (take manifest_limit body)))

-- `(c *Client) Pull(ctx, ref, destDir)`
unfoldable pub pull : Client → Bytes → Bytes → Try (Unit {0})
unfolding repo_and_tag
pull c ref dest_dir = do
  os (call (mkdir_all dest_dir 493))
  rt ← repo_and_tag c ref
  os (call (file_store dest_dir))
  os (call (pull_copy rt.0 rt.1 dest_dir))

abbrev pub logs_type : Bytes
unfolding codes
logs_type = codes "application/vnd.dev.orascout.logs.v1+json"

-- `(c *Client) PushFile(ctx, ref, localPath, mediaType)`
unfoldable pub push_file : Client → Bytes → Bytes → Bytes → Try (Unit {0})
unfolding repo_and_tag
push_file c ref local_path media_type = do
  rt ← repo_and_tag c ref
  os (call (file_store (dir local_path)))
  os (call (add_layer (base local_path) media_type))
  os (call (pack_manifest logs_type))
  os (call (tag_manifest rt.1))
  os (call (push_copy rt.0 rt.1 (dir local_path)))
