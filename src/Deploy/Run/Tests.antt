-- ===== src/Deploy/Run/Tests.antt =====
-- A health check whose only attempt fails before the deadline.
use orascout.Base.{refl, false, none, List, [], ◌∷◌, Result, err, codes}
use orascout.Base.Int.{pos, wrap64, ◌+ℤ◌}
use orascout.Annotations.{Spec, run_once, unset}
use orascout.Host.{now, command, wait}
use orascout.Host.Runs.{Event, Runs, stop, next}
use orascout.Deploy.Errors.{DeployError, out_of_fuel}
use orascout.Deploy.Strategies.{Request}
use orascout.Deploy.Run.{attempt, attempts, healthcheck}
use orascout.Deploy.Run.Health.{IsSpent, readings, healthcheck-IsSpent}

abbrev spec : Spec
unfolding codes
spec = record {
  deploy_type = run_once;
  source_file = codes "x";
  source_dir = [];
  target_path = [];
  target_mode = none;
  target_owner = [];
  target_clear = none;
  target_clear_parent = none;
  service_name = [];
  service_manager = unset;
  runonce_command = codes "x";
  hook_pre = [];
  hook_post = [];
  health_cmd = codes "exit 1";
  health_timeout = pos 30;
  health_interval = pos 2;
  title = [];
  description = [];
  version = [];
}

abbrev req : Request
req = record {
  artifact_dir = [];
  repo = [];
  digest = [];
  prev_digest = [];
  spec = spec;
  allowed_roots = [];
}

abbrev events : List Event
events =
    record { request = now; reply = pos 100 }
    ∷ record { request = command (attempt req); reply = false }
    ∷ record { request = now; reply = pos 110 }
    ∷ record { request = wait (pos 2); reply = false }
    ∷ []

abbrev spent : Result DeployError (Unit {0})
spent = err out_of_fuel

runs : Runs spent (healthcheck 1 req) events
unfolding healthcheck attempts ◌+ℤ◌ spec wrap64
runs = next (pos 100) (next false (next (pos 110) (next false (stop refl))))

healthcheck-IsSpent_example : IsSpent 1 (pos 30) (readings events)
unfolding spec
healthcheck-IsSpent_example = healthcheck-IsSpent 1 req runs refl
