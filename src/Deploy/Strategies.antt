-- ===== src/Deploy/Strategies.antt =====
-- internal/deploy/strategy_*.go: what each type of deploy does, and the choice among them.
use orascout.Base.{none, List, [], ◌∷◌, Bytes}
use orascout.Annotations.{
  Spec, DeployType, jar, war, static, run_once, hook_only, effective_service_manager,
}
use orascout.Host.{◌>>=◌, ◌>>◌}
use orascout.Paths.{dir}
use orascout.Deploy.Safety.{secure_path_join, or_true}
use orascout.Deploy.Command.{parse_shell_command, apply_template}
use orascout.Deploy.Errors.{
  Try, source_rejected, bad_command, empty_command, no_strategy, check, succeed, fail, execute,
}
use orascout.Deploy.Files.{copy_file, copy_dir, clear_if}
use orascout.Deploy.Services.{stop_service, start_service}

-- `Request`, without its logger.
pub record Request : Type 0 where
  pub artifact_dir : Bytes
  pub repo : Bytes
  pub digest : Bytes
  pub prev_digest : Bytes
  pub spec : Spec
  pub allowed_roots : List Bytes

abbrev pub source : Request → Bytes → Try Bytes
source req rel = check source_rejected (secure_path_join req.artifact_dir rel)

-- `(jarStrategy) Apply`
unfoldable pub apply_jar : Request → Try (Unit {0})
apply_jar req = do
  let s = req.spec
  let mgr = effective_service_manager s
  src ← source req s.source_file
  stop_service mgr s.service_name
  copy_file src s.target_path s.target_mode s.target_owner
  start_service mgr s.service_name

-- `(warStrategy) Apply`
unfoldable pub apply_war : Request → Try (Unit {0})
apply_war req = do
  let s = req.spec
  let mgr = effective_service_manager s
  src ← source req s.source_file
  stop_service mgr s.service_name
  clear_if (or_true s.target_clear_parent) (dir s.target_path)
  copy_file src s.target_path s.target_mode s.target_owner
  start_service mgr s.service_name

-- `(staticStrategy) Apply`
unfoldable pub apply_static : Request → Try (Unit {0})
apply_static req = do
  let s = req.spec
  src ← source req s.source_dir
  copy_dir src s.target_path (or_true s.target_clear) s.target_mode s.target_owner

unfoldable pub run_tokens : Request → Bytes → List Bytes → Try (Unit {0})
run_tokens req file [] = fail empty_command
run_tokens req file (t ∷ tokens) = execute (record {
  argv = apply_template (t ∷ tokens) file;
  cwd = req.artifact_dir;
  env = [];
  limit = none;
})

-- `(runOnceStrategy) Apply`
unfoldable pub apply_run_once : Request → Try (Unit {0})
unfolding run_tokens
apply_run_once req = do
  file ← source req req.spec.source_file
  tokens ← check bad_command (parse_shell_command req.spec.runonce_command)
  run_tokens req file tokens

-- `(hookOnlyStrategy) Apply`
abbrev pub apply_hook_only : Request → Try (Unit {0})
apply_hook_only req = succeed

-- `Dispatch(t)`, and `Apply` of the strategy that it gives.
unfoldable pub dispatch : DeployType → Request → Try (Unit {0})
dispatch jar req = apply_jar req
dispatch war req = apply_war req
dispatch static req = apply_static req
dispatch run_once req = apply_run_once req
dispatch hook_only req = apply_hook_only req
dispatch (DeployType.other t) req = fail no_strategy
