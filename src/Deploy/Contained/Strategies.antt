-- ===== src/Deploy/Contained/Strategies.antt =====
-- Each type of deploy writes and clears only what an accepted request allows it to.
use orascout.Base.{refl, inr, inl, ◌≡◌, sym, List, [], ◌∷◌, append-nil, All, ok, Bytes}
use orascout.Annotations.{
  Spec, DeployType, jar, war, static, run_once, hook_only, ServiceManager,
  effective_service_manager,
}
use orascout.Host.{◌>>=◌, ◌>>◌, Call}
use orascout.Host.Runs.{Calls, Calls-on_ok}
use orascout.Paths.{elements, dir}
use orascout.Paths.Dirs.{is_abs-dir}
use orascout.Deploy.Safety.{validate_as, or_true, secure_path_join}
use orascout.Deploy.Safety.Denylist.{IsDirectory}
use orascout.Deploy.Command.{parse_shell_command}
use orascout.Deploy.Errors.{Try, wrapped, source_rejected, bad_command}
use orascout.Deploy.Files.{copy_file, clear_if}
use orascout.Deploy.Services.{stop_service, start_service}
use orascout.Deploy.Strategies.{
  Request, source, apply_jar, apply_war, apply_static, run_tokens, apply_run_once, dispatch,
}
use orascout.Deploy.Contained.{Permitted, Contained}
use orascout.Deploy.Contained.Files.{copied_paths-IsBelow, copy_file-Contained, then-Contained}
use orascout.Deploy.Contained.Trees.{copy_dir-Contained, clear_if-Contained}
use orascout.Deploy.Contained.Processes.{stop_service-Permitted, start_service-Permitted}
use orascout.Deploy.Contained.Accepted.{
  MayWrite, MayClear, IsPassed, jar-IsPassed, war-IsPassed, static-IsPassed, join-IsEntry,
}

-- The calls that a deploy of a type may make.
abbrev pub Allows : DeployType → Request → Call → Type 0
Allows d req = Permitted (MayWrite d req.spec.target_path) (MayClear d req.spec req.allowed_roots)

module _ (req : Request) (roots : All IsDirectory req.allowed_roots) where
  abbrev s : Spec
  s = req.spec

  abbrev mgr : ServiceManager
  mgr = effective_service_manager req.spec

  -- The way into every strategy that takes a file of the artifact.
  source-Allows :
      (d : DeployType) (rel : Bytes) {B : Type 0} (k : Bytes → Try B)
      → ((src : Bytes) → Calls (Allows d req) (k src))
      → Calls (Allows d req) (source req rel >>= k)
  source-Allows d rel k h =
      Calls-on_ok (Allows d req) k (wrapped source_rejected (secure_path_join req.artifact_dir rel))
        h

  -- Copying and starting, for a file.
  copied_file-Contained :
      (clear : Bytes → Type 0) (src : Bytes)
      → IsPassed s req.allowed_roots
      → Contained (MayWrite jar s.target_path) clear (
          copy_file src s.target_path s.target_mode s.target_owner
          >> start_service mgr s.service_name)
  copied_file-Contained clear src p =
      let ds = elements (dir s.target_path) in
      let write = MayWrite jar s.target_path in
      let (target, tmp, parent) =
        copied_paths-IsBelow ds s.target_path p.absolute p.last_ok ([], sym (append-nil ds)) in
      then-Contained write clear (copy_file src s.target_path s.target_mode s.target_owner)
        (start_service mgr s.service_name)
        (copy_file-Contained write clear src s.target_path s.target_mode s.target_owner
          (target, inl refl) (tmp, inr (inl refl)) (parent, inr (inr refl)))
        (start_service-Permitted write clear mgr s.service_name)

  -- Stopping the service before that.
  stopped-Contained :
      (clear : Bytes → Type 0) (k : Try (Unit {0}))
      → Contained (MayWrite jar s.target_path) clear k
      → Contained (MayWrite jar s.target_path) clear (stop_service mgr s.service_name >> k)
  stopped-Contained clear k h =
      let write = MayWrite jar s.target_path in
      then-Contained write clear (stop_service mgr s.service_name) k
        (stop_service-Permitted write clear mgr s.service_name) h

  apply_jar-Allows :
      validate_as jar s req.allowed_roots ≡ ok tt → Calls (Allows jar req) (apply_jar req)
  unfolding apply_jar
  apply_jar-Allows v = source-Allows jar s.source_file _ (λ src.
      stopped-Contained (MayClear jar s req.allowed_roots) _ (
        copied_file-Contained (MayClear jar s req.allowed_roots) src
          (jar-IsPassed s req.allowed_roots roots v)))

  apply_war-Allows :
      validate_as war s req.allowed_roots ≡ ok tt → Calls (Allows war req) (apply_war req)
  unfolding apply_war
  apply_war-Allows v =
      let (passed, clearable) = war-IsPassed s req.allowed_roots roots v in
      let d = dir s.target_path in
      let clear = MayClear war s req.allowed_roots in
      source-Allows war s.source_file _ (λ src. stopped-Contained clear _ (
        then-Contained (MayWrite war s.target_path) clear
          (clear_if (or_true s.target_clear_parent) d) _
          (clear_if-Contained (MayWrite war s.target_path) clear (or_true s.target_clear_parent) d
            (λ on name n.
              (on, clearable on, join-IsEntry d name (is_abs-dir s.target_path passed.absolute) n)))
          (copied_file-Contained clear src passed)))

  apply_static-Allows :
      validate_as static s req.allowed_roots ≡ ok tt → Calls (Allows static req) (apply_static req)
  unfolding apply_static
  apply_static-Allows v =
      let (passed, clearable) = static-IsPassed s req.allowed_roots roots v in
      let ds = elements s.target_path in
      source-Allows static s.source_dir _ (λ src.
        copy_dir-Contained ds (MayClear static s req.allowed_roots) src s.target_path
          (or_true s.target_clear) s.target_mode s.target_owner passed.absolute
          ([], sym (append-nil ds))
          (λ on name n. (on, clearable on, join-IsEntry s.target_path name passed.absolute n)))

  run_tokens-Allows :
      (file : Bytes) (tokens : List Bytes)
      → Calls (Allows run_once req) (run_tokens req file tokens)
  unfolding run_tokens
  run_tokens-Allows file [] = tt
  run_tokens-Allows file (t ∷ tokens) = (tt, λ r _. tt)

  apply_run_once-Allows : Calls (Allows run_once req) (apply_run_once req)
  unfolding apply_run_once
  apply_run_once-Allows = source-Allows run_once s.source_file _ (λ file.
      Calls-on_ok (Allows run_once req) (run_tokens req file)
        (wrapped bad_command (parse_shell_command s.runonce_command)) (run_tokens-Allows file))

  pub dispatch-Allows :
      (d : DeployType)
      → validate_as d s req.allowed_roots ≡ ok tt
      → Calls (Allows d req) (dispatch d req)
  unfolding dispatch
  dispatch-Allows jar v = apply_jar-Allows v
  dispatch-Allows war v = apply_war-Allows v
  dispatch-Allows static v = apply_static-Allows v
  dispatch-Allows run_once v = apply_run_once-Allows
  dispatch-Allows hook_only v = tt
  dispatch-Allows (DeployType.other t) v = tt
