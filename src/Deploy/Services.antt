-- ===== src/Deploy/Services.antt =====
-- internal/deploy/systemd.go: stopping and starting the service of a deploy.
use orascout.Base.{none, List, [], ◌∷◌, Bytes, codes}
use orascout.Annotations.{ServiceManager, systemd_user, systemd, unmanaged}
use orascout.Host.{Command}
use orascout.Deploy.Errors.{Try, panicked, succeed, fail, execute}

abbrev plain : List Bytes → Command
plain argv = record { argv = argv; cwd = []; env = []; limit = none }

-- `systemctlCmd(mgr, verb, unit)` and its run. It panics for any other manager.
unfoldable pub systemctl : ServiceManager → Bytes → Bytes → Try (Unit {0})
systemctl systemd_user verb unit =
    execute (plain (codes "systemctl" ∷ codes "--user" ∷ verb ∷ unit ∷ []))
systemctl systemd verb unit = execute (plain (codes "systemctl" ∷ verb ∷ unit ∷ []))
systemctl _ verb unit = fail panicked

abbrev unless_unmanaged : ServiceManager → Try (Unit {0}) → Try (Unit {0})
unless_unmanaged unmanaged m = succeed
unless_unmanaged _ m = m

-- `stopService(mgr, unit)`
unfoldable pub stop_service : ServiceManager → Bytes → Try (Unit {0})
unfolding systemctl
stop_service mgr unit = unless_unmanaged mgr (systemctl mgr (codes "stop") unit)

-- `startService(mgr, unit)`
unfoldable pub start_service : ServiceManager → Bytes → Try (Unit {0})
unfolding systemctl
start_service mgr unit = unless_unmanaged mgr (systemctl mgr (codes "start") unit)
