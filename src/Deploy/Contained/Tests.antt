-- ===== src/Deploy/Contained/Tests.antt =====
-- A whole deploy of a war, and one that is rejected.
use orascout.Base.{◌⊎◌, ◌≡◌, refl, true, none, List, [], ◌∷◌, All, Result, ok, err, Bytes, codes}
use orascout.Base.Int.{ℤ}
use orascout.Strings.{has_prefix, contains, split, trim_space, trim_byte}
use orascout.Paths.{clean, dir, join}
use orascout.Annotations.{Spec, DeployType, jar, war, systemd, ServiceManager}
use orascout.Host.{
  command, eval_symlinks, read_dir, remove_all, lstat, mkdir_all, open_file, create, copy, close,
  rename, regular,
}
use orascout.Host.Runs.{Event, Runs, stop, next, IsSane}
use orascout.Paths.Elements.{split-NoSlash, IsName}
use orascout.Deploy.Safety.{
  SafetyError, escapes, validate_target_path, validate_clear_path, validate_request, validate_as,
  guard_clear_dir, secure_path_join, depth, protected_subtree,
}
use orascout.Deploy.Errors.{DeployError, unsafe, source_rejected}
use orascout.Deploy.Files.{copy_file, clear_dir_contents, set_mode, set_owner, each}
use orascout.Deploy.Services.{stop_service, start_service, systemctl}
use orascout.Deploy.Strategies.{Request, dispatch, apply_war}
use orascout.Deploy.Run.{run, run_hook}
use orascout.Deploy.Contained.Strategies.{Allows}
use orascout.Deploy.Contained.Checked.{IsAcceptable, run-checked}
use orascout.Deploy.Contained.Runs.{run-contained}

abbrev spec_at : Bytes → Spec
unfolding codes
spec_at target = record {
  deploy_type = war;
  source_file = codes "app.war";
  source_dir = [];
  target_path = target;
  target_mode = none;
  target_owner = [];
  target_clear = none;
  target_clear_parent = none;
  service_name = codes "tomcat";
  service_manager = systemd;
  runonce_command = [];
  hook_pre = [];
  hook_post = [];
  health_cmd = [];
  health_timeout = ℤ.pos 0;
  health_interval = ℤ.pos 0;
  title = [];
  description = [];
  version = [];
}

abbrev request_at : Bytes → Request
unfolding codes
request_at target = record {
  artifact_dir = codes "/a";
  repo = codes "r";
  digest = codes "d";
  prev_digest = [];
  spec = spec_at target;
  allowed_roots = [];
}

abbrev req : Request
unfolding codes
req = request_at (codes "/srv/w/app.war")

abbrev systemctl_call : Bytes → Event
unfolding codes
systemctl_call verb = record {
  request = command (record {
    argv = codes "systemctl" ∷ verb ∷ codes "tomcat" ∷ [];
    cwd = [];
    env = [];
    limit = none;
  });
  reply = true;
}

abbrev events : List Event
unfolding codes
events =
    systemctl_call (codes "stop")
    ∷ record { request = eval_symlinks (codes "/srv/w"); reply = ok (codes "/srv/w") }
    ∷ record { request = read_dir (codes "/srv/w"); reply = ok (codes "old" ∷ []) }
    ∷ record { request = remove_all (codes "/srv/w/old"); reply = ok tt }
    ∷ record {
      request = lstat (codes "/a/app.war");
      reply = ok (record { kind = regular; perm = 420 });
    }
    ∷ record { request = mkdir_all (codes "/srv/w") 493; reply = ok tt }
    ∷ record { request = open_file (codes "/a/app.war"); reply = ok tt }
    ∷ record { request = create (codes "/srv/w/app.war.orascout.tmp"); reply = ok tt }
    ∷ record {
      request = copy (codes "/a/app.war") (codes "/srv/w/app.war.orascout.tmp");
      reply = ok tt;
    }
    ∷ record { request = close (codes "/srv/w/app.war.orascout.tmp"); reply = ok tt }
    ∷ record {
      request = rename (codes "/srv/w/app.war.orascout.tmp") (codes "/srv/w/app.war");
      reply = ok tt;
    }
    ∷ systemctl_call (codes "start")
    ∷ []

runs : Runs (ok tt) (run 0 req) events
unfolding run run_hook validate_request validate_as validate_target_path validate_clear_path depth
    trim_space trim_byte contains has_prefix split clean dir join secure_path_join guard_clear_dir
    dispatch apply_war stop_service start_service systemctl clear_dir_contents each copy_file
    set_mode set_owner codes orascout.Annotations.effective_service_manager
runs = next true (
    next (ok (codes "/srv/w")) (
      next (ok (codes "old" ∷ [])) (
        next (ok tt) (
          next (ok (record { kind = regular; perm = 420 })) (
            next (ok tt) (
              next (ok tt) (
                next (ok tt)
                  (next (ok tt) (next (ok tt) (next (ok tt) (next true (stop refl))))))))))))

old-IsName : IsName (codes "old")
unfolding codes split
old-IsName = record {
  ne_nil = λ e. cc e;
  ne_dot = λ e. cc e;
  ne_dotdot = λ e. cc e;
  no_slash = (split-NoSlash (codes "old")).0;
}

sane : All (λ e. IsSane e.request e.reply) events
unfolding codes
sane = (tt, (tt, ((old-IsName, tt), (tt, (tt, (tt, (tt, (tt, (tt, (tt, (tt, (tt, tt))))))))))))

run-contained_example : All (λ e. Allows war req e.request) events
unfolding req
run-contained_example = run-contained 0 req tt runs sane

abbrev evil : Request
unfolding codes
evil = request_at (codes "/etc/cron.d/x")

abbrev none_made : List Event
none_made = []

abbrev refused : Result DeployError (Unit {0})
refused = err (unsafe protected_subtree)

rejected_run : Runs refused (run 3 evil) none_made
unfolding run validate_request validate_as validate_target_path trim_space contains has_prefix clean
    codes
rejected_run = stop refl

run-checked_example :
    IsAcceptable req.spec.deploy_type req.spec req.allowed_roots
    ⊎ ((events ≡ [])
        × ((e : SafetyError) × (◌≡◌ {A = Result DeployError (Unit {0})} (ok tt) (err (unsafe e)))))
unfolding req
run-checked_example = run-checked 0 req tt runs

-- The hook runs before the path of the source is refused.
abbrev sly : Request
unfolding codes
sly = record (request_at (codes "/srv/w/app.jar")) {
  spec = record (request_at (codes "/srv/w/app.jar")).spec {
    source_file = codes "../x";
    hook_pre = codes "pre.sh";
  };
}

hook_first : (es : List Event) × Runs (err (source_rejected escapes)) (run 0 sly) es
unfolding run run_hook validate_request validate_as validate_target_path validate_clear_path depth
    trim_space trim_byte contains has_prefix split clean dir join secure_path_join dispatch
    apply_war codes orascout.Annotations.effective_service_manager
hook_first = (_, next (ok tt) (next true (stop refl)))
