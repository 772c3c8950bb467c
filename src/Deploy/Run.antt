-- ===== src/Deploy/Run.antt =====
-- internal/deploy/deploy.go: the run of a deploy, its hooks and its health check.
pub mod Health
pub mod Tests
use orascout.Base.{if◌then◌else◌, ℕ, zero, suc, none, some, List, [], ◌∷◌, ◌++◌, Bytes, codes}
use orascout.Annotations.{DeployType, jar, war, static, run_once, hook_only}
use orascout.Base.Int.{◌+ℤ◌, wrap64, ℤ, ltb_ℤ}
use orascout.Host.{Command, command, stat, now, wait, ask, after, call, ◌>>=◌, ◌>>◌}
use orascout.Deploy.Safety.{secure_path_join, validate_request}
use orascout.Deploy.Errors.{
  Try, unsafe, hook_rejected, unhealthy, cancelled, out_of_fuel, check, os, succeed, fail, execute,
}
use orascout.Deploy.Strategies.{Request, dispatch}

-- `string(t)`
unfoldable pub type_text : DeployType → Bytes
unfolding codes
type_text jar = codes "jar"
type_text war = codes "war"
type_text static = codes "static"
type_text run_once = codes "run-once"
type_text hook_only = codes "hook-only"
type_text (DeployType.other t) = t

-- What a hook finds in its environment beside that of the daemon.
abbrev hook_env : Request → Bytes → List Bytes
hook_env req phase =
    (codes "ORASCOUT_ARTIFACT_DIR=" ++ req.artifact_dir)
    ∷ (codes "ORASCOUT_REPO=" ++ req.repo)
    ∷ (codes "ORASCOUT_DIGEST=" ++ req.digest)
    ∷ (codes "ORASCOUT_PREV_DIGEST=" ++ req.prev_digest)
    ∷ (codes "ORASCOUT_TYPE=" ++ type_text req.spec.deploy_type)
    ∷ (codes "ORASCOUT_PHASE=" ++ phase)
    ∷ []

-- `runHook(req, phase, hookRelPath)`
unfoldable pub run_hook : Request → Bytes → Bytes → Try (Unit {0})
run_hook req phase [] = succeed
run_hook req phase (c ∷ rel) = do
  abs ← check hook_rejected (secure_path_join req.artifact_dir (c ∷ rel))
  os (call (stat abs))
  execute
      (record { argv = abs ∷ []; cwd = req.artifact_dir; env = hook_env req phase; limit = none })

-- `HealthInterval + 5*time.Second`
abbrev attempt : Request → Command
attempt req = record {
  argv = codes "/bin/sh" ∷ codes "-c" ∷ req.spec.health_cmd ∷ [];
  cwd = [];
  env = [];
  limit = some (wrap64 (req.spec.health_interval +ℤ ℤ.pos 5_000_000_000));
}

-- The loop of `healthcheck`, for at most so many attempts. Times are in nanoseconds.
unfoldable pub attempts : ℕ → Request → ℤ → Try (Unit {0})
attempts zero req deadline = fail out_of_fuel
attempts (suc fuel) req deadline =
    let rest = attempts fuel req deadline in
    ask (command (attempt req)) (λ passed.
      if passed
      then succeed
      else ask now (λ t.
        if ltb_ℤ deadline t
        then fail unhealthy
        else ask (wait req.spec.health_interval)
            (λ stopped. if stopped then fail cancelled else rest)))

-- `healthcheck(req)`
unfoldable pub healthcheck : ℕ → Request → Try (Unit {0})
unfolding attempts
healthcheck fuel req = ask now (λ t. attempts fuel req (t +ℤ req.spec.health_timeout))

abbrev pub health_if : ℕ → Request → Bytes → Try (Unit {0})
health_if fuel req [] = succeed
health_if fuel req (c ∷ cmd) = healthcheck fuel req

-- `Run(req)`. A failed post-hook is only logged.
unfoldable pub run : ℕ → Request → Try (Unit {0})
run fuel req = do
  check unsafe (validate_request req.spec req.allowed_roots)
  run_hook req (codes "pre") req.spec.hook_pre
  dispatch req.spec.deploy_type req
  health_if fuel req req.spec.health_cmd
  after (run_hook req (codes "post") req.spec.hook_post) (λ _. succeed)
