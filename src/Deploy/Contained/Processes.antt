-- ===== src/Deploy/Contained/Processes.antt =====
-- Hooks, services and health checks start processes, and write and remove nothing themselves.
use orascout.Base.{ℕ, zero, suc, [], ◌∷◌, Bytes, codes}
use orascout.Base.Int.{ℤ, ltb_ℤ, ◌+ℤ◌}
use orascout.Annotations.{ServiceManager, systemd_user, systemd, unmanaged}
use orascout.Host.Runs.{Calls, Calls-on_ok, Calls-if}
use orascout.Deploy.Safety.{secure_path_join}
use orascout.Deploy.Errors.{os_failed, wrapped, hook_rejected}
use orascout.Deploy.Services.{systemctl, stop_service, start_service}
use orascout.Deploy.Strategies.{Request}
use orascout.Deploy.Run.{run_hook, attempts, healthcheck, health_if}
use orascout.Deploy.Contained.{Permitted}

module _ (write clear : Bytes → Type 0) where
  systemctl-Permitted :
      (mgr : ServiceManager) (verb unit : Bytes)
      → Calls (Permitted write clear) (systemctl mgr verb unit)
  unfolding systemctl
  systemctl-Permitted systemd_user verb unit = (tt, λ r _. tt)
  systemctl-Permitted systemd verb unit = (tt, λ r _. tt)
  systemctl-Permitted _ verb unit = tt

  pub stop_service-Permitted :
      (mgr : ServiceManager) (unit : Bytes) → Calls (Permitted write clear) (stop_service mgr unit)
  unfolding stop_service
  stop_service-Permitted unmanaged unit = tt
  stop_service-Permitted mgr unit = systemctl-Permitted mgr (codes "stop") unit

  pub start_service-Permitted :
      (mgr : ServiceManager) (unit : Bytes) → Calls (Permitted write clear) (start_service mgr unit)
  unfolding start_service
  start_service-Permitted unmanaged unit = tt
  start_service-Permitted mgr unit = systemctl-Permitted mgr (codes "start") unit

  pub run_hook-Permitted :
      (req : Request) (phase rel : Bytes) → Calls (Permitted write clear) (run_hook req phase rel)
  unfolding run_hook
  run_hook-Permitted req phase [] = tt
  run_hook-Permitted req phase (c ∷ rel) =
      Calls-on_ok (Permitted write clear) _
        (wrapped hook_rejected (secure_path_join req.artifact_dir (c ∷ rel)))
        (λ abs. (
          tt,
          λ r _. Calls-on_ok (Permitted write clear) _ (wrapped os_failed r) (λ _. (tt, λ q _. tt)),
        ))

  attempts-Permitted :
      (fuel : ℕ) (req : Request) (deadline : ℤ)
      → Calls (Permitted write clear) (attempts fuel req deadline)
  unfolding attempts
  attempts-Permitted zero req deadline = tt
  attempts-Permitted (suc fuel) req deadline =
      let rest = attempts-Permitted fuel req deadline in
      let calls = Calls-if (Permitted write clear) in
      (
        tt,
        λ passed _. calls passed _ _ tt (
          tt,
          λ t _. calls (ltb_ℤ deadline t) _ _ tt (tt, λ stopped _. calls stopped _ _ tt rest),
        ),
      )

  pub health_if-Permitted :
      (fuel : ℕ) (req : Request) (cmd : Bytes)
      → Calls (Permitted write clear) (health_if fuel req cmd)
  unfolding healthcheck
  health_if-Permitted fuel req [] = tt
  health_if-Permitted fuel req (c ∷ cmd) =
      (tt, λ t _. attempts-Permitted fuel req (t +ℤ req.spec.health_timeout))
