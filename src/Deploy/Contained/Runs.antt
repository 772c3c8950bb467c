-- ===== src/Deploy/Contained/Runs.antt =====
-- A whole deploy writes and clears only what its request allows, whatever the host replies.
use orascout.Base.{ℕ, ◌≡◌, refl, List, All, Result, ok, err, codes}
use orascout.Host.{◌>>◌, Call, after}
use orascout.Host.Runs.{Calls, Calls-then, Calls-after, Runs, Event, Calls-Runs, Calls-imp, IsSane}
use orascout.Deploy.Safety.{Check, validate_as, validate_request}
use orascout.Deploy.Safety.Denylist.{IsDirectory}
use orascout.Deploy.Errors.{check, DeployError, Try, unsafe, succeed}
use orascout.Deploy.Strategies.{Request, dispatch}
use orascout.Deploy.Run.{run_hook, health_if, run}
use orascout.Deploy.Contained.Processes.{run_hook-Permitted, health_if-Permitted}
use orascout.Deploy.Contained.Accepted.{MayWrite, MayClear}
use orascout.Deploy.Contained.Strategies.{Allows, dispatch-Allows}

module _ (fuel : ℕ) (req : Request) (roots : All IsDirectory req.allowed_roots) where
  abbrev Here : Call → Type 0
  Here = Allows req.spec.deploy_type req

  -- What is done once the request is accepted.
  accepted-Allows :
      validate_as req.spec.deploy_type req.spec req.allowed_roots ≡ ok tt
      → Calls Here (
          run_hook req (codes "pre") req.spec.hook_pre
          >> (dispatch req.spec.deploy_type req
              >> (health_if fuel req req.spec.health_cmd
                  >> after (run_hook req (codes "post") req.spec.hook_post) (λ _. succeed))))
  accepted-Allows v =
      let write = MayWrite req.spec.deploy_type req.spec.target_path in
      let clear = MayClear req.spec.deploy_type req.spec req.allowed_roots in
      Calls-then Here (run_hook req (codes "pre") req.spec.hook_pre) _
        (run_hook-Permitted write clear req (codes "pre") req.spec.hook_pre)
        (Calls-then Here (dispatch req.spec.deploy_type req) _
          (dispatch-Allows req roots req.spec.deploy_type v)
          (Calls-then Here (health_if fuel req req.spec.health_cmd) _
            (health_if-Permitted write clear fuel req req.spec.health_cmd)
            (Calls-after Here (run_hook req (codes "post") req.spec.hook_post) (λ _. succeed)
              (run_hook-Permitted write clear req (codes "post") req.spec.hook_post) (λ _. tt))))

  -- The calls behind the checks, with the verdict that they wait for.
  abbrev Passed : Call → Type 0
  Passed c = (validate_request req.spec req.allowed_roots ≡ ok tt) × Here c

  checked-Passed :
      (r : Check) (k : Try (Unit {0}))
      → (r ≡ ok tt → Calls Passed k)
      → Calls Passed (check unsafe r >> k)
  checked-Passed (ok tt) k h = h refl
  checked-Passed (err e) k h = tt

  pub run-Passed : Calls Passed (run fuel req)
  unfolding run validate_request
  run-Passed =
      checked-Passed (validate_request req.spec req.allowed_roots) _
        (λ v. Calls-imp Here Passed (λ c here. (v, here)) _ (accepted-Allows v))

  run-Allows : Calls Here (run fuel req)
  run-Allows = Calls-imp Passed Here (λ c p. p.1) (run fuel req) run-Passed

-- Whatever a host with sane replies answers, and however the deploy ends: with an allowlist of clean
-- absolute directories other than the root, each call that writes or removes is one that the request
-- allows. A jar or war deploy writes only its target, the temporary file beside it and their directory,
-- all of them in the directory of the target, a static one only its target and below, the other types
-- nothing. Only entries of that directory are removed with
-- all they hold, only by war and static deploys with clearing on, and only if the directory is off the
-- denylists, under the allowlist and at least two levels below the root.
pub run-contained :
    (fuel : ℕ) (req : Request) {result : Result DeployError (Unit {0})} {events : List Event}
    → All IsDirectory req.allowed_roots
    → Runs result (run fuel req) events
    → All (λ e. IsSane e.request e.reply) events
    → All (λ e. Allows req.spec.deploy_type req e.request) events
run-contained fuel req roots runs sane =
    Calls-Runs (Allows req.spec.deploy_type req) (run fuel req) (run-Allows fuel req roots) runs
      sane
