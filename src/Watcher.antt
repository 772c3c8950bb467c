-- ===== src/Watcher.antt =====
-- internal/watcher/watcher.go: the cycles of the watcher, as programs of calls that end with the store
-- that they leave. A panic of a deploy or of the store is a result like other errors.
pub mod Daemon
pub mod Observes
pub mod Answers
pub mod Asked
pub mod Recorded
pub mod Cycle
pub mod Settled
pub mod Bracket
pub mod Own
pub mod Contained
pub mod Served
pub mod Tests
use orascout.Base.{
  ℕ, Bool, true, false, Option, none, some, [], if◌then◌else◌, Result, ok, err, Bytes, eqb,
}
use orascout.Base.Int.{ℤ}
use orascout.Paths.{join}
use orascout.Annotations.{RawAnnotations, Spec, AnnotationError, parse}
use orascout.Config.{Config, RepoRef}
use orascout.Host.{Act, done, after, call, ◌>>=◌, ◌>>◌, Failure, remove_all, now}
use orascout.Registry.Client.{Client, RegistryError, resolve_digest, fetch_annotations, pull}
use orascout.Deploy.Errors.{DeployError}
use orascout.Deploy.Strategies.{Request}
use orascout.Deploy.Run.{type_text, run}
use orascout.State.{Entry, FileShape, Store, StateError, get}
use orascout.State.Program.{open_program, set_program}

-- What the watcher takes from the JSON library, package time and the process.
pub record Libraries : Type 0 where
  pub parse_duration : Bytes → Option ℤ
  pub decode_manifest : Bytes → Option (Option RawAnnotations)
  pub marshal : FileShape → Option Bytes
  pub unmarshal : Bytes → FileShape → Option FileShape
  pub pid : ℕ

-- `Watcher`, without its logger.
pub record Watcher : Type 0 where
  pub cfg : Config
  pub client : Client
  pub store : Store
  pub dry_run : Bool

pub data CycleError : Type 0 where
  resolve_failed fetch_failed pull_failed : RegistryError → CycleError
  bad_annotations : AnnotationError → CycleError
  clean_failed : Failure → CycleError
  deploy_failed : DeployError → CycleError
  persist_failed : StateError → CycleError

abbrev pub Try : Type 0 → Type 0
Try A = Act (Result CycleError A)

abbrev pub wrapped {ℓ} :
    {E : Type 0} {A : Type ℓ} → (E → CycleError) → Result E A → Result CycleError A
wrapped f (ok a) = ok a
wrapped f (err e) = err (f e)

-- `if err != nil { return false, fmt.Errorf(…, err) }`
abbrev pub check : {E A : Type 0} → (E → CycleError) → Act (Result E A) → Try A
check f m = after m (λ r. done (wrapped f r))

-- What is to be deployed.
pub record Change : Type 0 where
  pub digest : Bytes
  pub prev_digest : Bytes
  pub spec : Spec

-- The digest of a record, empty without one.
abbrev pub digest_of : Option Entry → Bytes
digest_of none = []
digest_of (some e) = e.digest

module _ (h : Libraries) where
  -- `New(cfg, logger)`
  unfoldable pub new : Config → Act (Result StateError Watcher)
  new cfg = do
    store ← open_program h.unmarshal cfg.state_file
    done (
        ok (record {
          cfg = cfg;
          client = record {
            auth = record {
              username = cfg.auth.username;
              password = cfg.auth.password;
              token = cfg.auth.token;
            };
            insecure = cfg.insecure;
          };
          store = store;
          dry_run = false;
        }))

  -- From the annotations: what is to be deployed, unless this is a dry run.
  abbrev pub planned : Watcher → Bytes → Bytes → Spec → Option Change
  planned w digest prev spec =
      if w.dry_run then none else some (record { digest = digest; prev_digest = prev; spec = spec })

  abbrev pub fetch_plan : Watcher → RepoRef → Bytes → Bytes → Try (Option Change)
  fetch_plan w ref digest prev = do
    raw ← check fetch_failed (fetch_annotations h.decode_manifest w.client ref.full_ref)
    spec ← check bad_annotations (done (parse h.parse_duration raw))
    done (ok (planned w digest prev spec))

  -- The first part of `cycleOne`: nothing to deploy if the digest is the recorded one.
  unfoldable pub plan : Watcher → RepoRef → Try (Option Change)
  plan w ref = do
    digest ← check resolve_failed (resolve_digest w.client ref.full_ref)
    let prev = digest_of (get w.store ref.full_ref)
    if eqb digest prev then done (ok none) else fetch_plan w ref digest prev

  abbrev pub artifact_dir : Watcher → RepoRef → Bytes
  artifact_dir w ref = join w.cfg.artifacts_dir ref.name

  abbrev pub request : Watcher → RepoRef → Change → Request
  request w ref c = record {
    artifact_dir = artifact_dir w ref;
    repo = ref.full_ref;
    digest = c.digest;
    prev_digest = c.prev_digest;
    spec = c.spec;
    allowed_roots = w.cfg.allowed_target_roots;
  }

  -- The second part, with the fuel of the health check: the record of a successful deploy.
  unfoldable pub deploy_change : ℕ → Watcher → RepoRef → Change → Try Entry
  deploy_change fuel w ref c = do
    check clean_failed (call (remove_all (artifact_dir w ref)))
    check pull_failed (pull w.client ref.full_ref (artifact_dir w ref))
    check deploy_failed (run fuel (request w ref c))
    t ← after (call now) (λ t. done (ok t))
    done (
        ok (record {
          digest = c.digest;
          deployed_at = t;
          deploy_type = type_text c.spec.deploy_type;
        }))

  abbrev pub deploy_plan : ℕ → Watcher → RepoRef → Option Change → Try (Option Entry)
  deploy_plan fuel w ref none = done (ok none)
  deploy_plan fuel w ref (some c) = deploy_change fuel w ref c >>= λ e. done (ok (some e))

  abbrev pub persisted : Result StateError (Unit {0}) × Store → Result CycleError Bool × Store
  persisted (ok u, s) = (ok true, s)
  persisted (err e, s) = (err (persist_failed e), s)

  abbrev pub persist :
      Watcher → RepoRef → Result CycleError (Option Entry) → Act (Result CycleError Bool × Store)
  persist w ref (err e) = done (err e, w.store)
  persist w ref (ok none) = done (ok false, w.store)
  persist w ref (ok (some e)) =
      after (set_program h.marshal w.store ref.full_ref e) (λ x. done (persisted x))

  -- `cycleOne(ctx, ref)`
  unfoldable pub cycle_one : ℕ → Watcher → RepoRef → Act (Result CycleError Bool × Store)
  unfolding plan deploy_change
  cycle_one fuel w ref = after (plan w ref >>= deploy_plan fuel w ref) (persist w ref)
