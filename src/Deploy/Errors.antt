-- ===== src/Deploy/Errors.antt =====
-- The errors of a deploy, by the call or check that failed, and how checks and calls raise them.
use orascout.Base.{Bool, true, false, Result, ok, err}
use orascout.Host.{Failure, OsResult, Act, done, after, call, Command, command}
use orascout.Deploy.Safety.{SafetyError}
use orascout.Deploy.Command.{CommandError}

pub data DeployError : Type 0 where
  unsafe source_rejected hook_rejected clear_rejected : SafetyError → DeployError
  os_failed : Failure → DeployError
  bad_command : CommandError → DeployError
  not_regular command_failed empty_command no_strategy : DeployError
  unhealthy cancelled out_of_fuel panicked : DeployError

-- A program that may return an error.
abbrev pub Try : Type 0 → Type 0
Try A = Act (Result DeployError A)

abbrev pub wrapped {ℓ} :
    {E : Type 0} {A : Type ℓ} → (E → DeployError) → Result E A → Result DeployError A
wrapped f (ok a) = ok a
wrapped f (err e) = err (f e)

-- `if err := check; err != nil { return … }`
abbrev pub check : {E A : Type 0} → (E → DeployError) → Result E A → Try A
check f r = done (wrapped f r)

-- The same for a call.
abbrev pub os : {A : Type 0} → Act (OsResult A) → Try A
os m = after m (check os_failed)

abbrev pub succeed : Try (Unit {0})
succeed = done (ok tt)

abbrev pub fail : {A : Type 0} → DeployError → Try A
fail e = done (err e)

abbrev pub exit_status : Bool → Result DeployError (Unit {0})
exit_status true = ok tt
exit_status false = err command_failed

-- A subprocess, whose failure is an error.
abbrev pub execute : Command → Try (Unit {0})
execute c = after (call (command c)) (λ r. done (exit_status r))
