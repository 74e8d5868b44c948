-- ===== src/Execute/Growth.antt =====
-- actions.go, `executeAction`: what no action does, whatever it is and however it ends, to the audit log
-- and to the profile's registry.
use home_stack.Prelude.{
  Bool, true, false, ◌≡◌, refl, ◌⊎◌, inl, inr, List, Option, none, some, String, Result, ok, err,
  if◌then◌else◌, Option-cases, Outcome-cases, ◌==◌,
}
use home_stack.Actions.{ActionRequest, RunError, run_service_action}
use home_stack.Edits.{Disk, EditError, add_service, remove_service}
use home_stack.Edits.Atomic.{
  Loads, IsAtomic, replaced-IsAtomic, add_service-IsReplaced, remove_service-IsAtomic,
}
use home_stack.Artifacts.{Storage}
use home_stack.Deploy.{Host, DeployDiff, DeployError, diff, sync_profile, apply, sync_system}
use home_stack.Events.{Journal}
use home_stack.Execute.{
  State, Outcome, active_registry, system, host_at, ran, command, service_action, reload_script,
  reloaded, deployed, came_to_reload, sync, validate_command, caddy_validate_action,
  deploy_preview_action, after_apply, deploy_apply_action, edited, registry_add_action,
  registry_remove_action, perform,
}

module _ {W : Type 0} (run : List String → W → (String × Option RunError) × W) (bundle_dir : String)
    (h : Host) (disk : Storage) (j : Journal) (to_json : DeployDiff → String) where
  -- The log is as it was, and the registry as it was or one that loads.
  abbrev pub IsGentle : State W → Outcome run bundle_dir h disk j to_json → Type 0
  IsGentle st o =
      (o.1.log ≡ st.log)
      × ((o.1.profile.registry ≡ st.profile.registry)
          ⊎ Loads (system run bundle_dir h disk j to_json) o.1.profile.registry)

  either :
      (st : State W) (test : Bool) (x y : Outcome run bundle_dir h disk j to_json)
      → IsGentle st x
      → IsGentle st y
      → IsGentle st (if test then x else y)
  either st true x y hx hy = hx
  either st false x y hx hy = hy

  ran-IsGentle :
      (st : State W) (answer : (String × Option RunError) × W)
      → IsGentle st (ran run bundle_dir h disk j to_json st answer)
  ran-IsGentle st ((out, none), w) = (refl, inl refl)
  ran-IsGentle st ((out, some e), w) = (refl, inl refl)

  deployed-IsGentle :
      (st : State W) (result : Result DeployError String)
      → IsGentle st (deployed run bundle_dir h disk j to_json result st)
  deployed-IsGentle st (ok text) = (refl, inl refl)
  deployed-IsGentle st (err e) = (refl, inl refl)

  pub sync-IsGentle : (st : State W) → IsGentle st (sync run bundle_dir h disk j to_json st)
  unfolding sync
  sync-IsGentle st =
      let (answer, w) = run (reload_script run bundle_dir h disk j to_json) st.world in
      let (result, b) =
        sync_system (host_at run bundle_dir h disk j to_json st) bundle_dir disk
          (reloaded run bundle_dir h disk j to_json answer) st.bundle in
      deployed-IsGentle
        (record st {
          world = if came_to_reload run bundle_dir h disk j to_json result then w else st.world;
          bundle = b;
        })
        result

  -- A command after a part that was gentle.
  later :
      (st mid : State W)
      → (mid.log ≡ st.log)
        × ((mid.profile.registry ≡ st.profile.registry)
            ⊎ Loads (system run bundle_dir h disk j to_json) mid.profile.registry)
      → (answer : (String × Option RunError) × W)
      → IsGentle st (ran run bundle_dir h disk j to_json mid answer)
  later st mid mild ((out, none), w) = mild
  later st mid mild ((out, some e), w) = mild

  validate-IsGentle :
      (st : State W) → IsGentle st (caddy_validate_action run bundle_dir h disk j to_json st)
  unfolding caddy_validate_action
  validate-IsGentle st =
      let synced = sync run bundle_dir h disk j to_json st in
      let mild = sync-IsGentle st in
      elim (Option-cases synced.0.1) [
        | inr (f, failed) ↦ rw (failed, caddy_validate_action) mild
        | inl fine ↦
            rw (fine, caddy_validate_action)
              (later st synced.1 mild
                (run (validate_command run bundle_dir h disk j to_json) synced.1.world))
      ]

  preview-IsGentle :
      (st : State W) → IsGentle st (deploy_preview_action run bundle_dir h disk j to_json st)
  unfolding deploy_preview_action
  preview-IsGentle st =
      elim (Outcome-cases (
        diff (host_at run bundle_dir h disk j to_json st) bundle_dir (sync_profile h bundle_dir)
          st.bundle)) [
            | inl (d, done) ↦ rw (done, deploy_preview_action) (refl, inl refl)
            | inr (e, failed) ↦ rw (failed, deploy_preview_action) (refl, inl refl)
          ]

  after_apply-IsGentle :
      (st : State W) (text : String) (o : Outcome run bundle_dir h disk j to_json)
      → IsGentle st o
      → IsGentle st (after_apply run bundle_dir h disk j to_json text o)
  after_apply-IsGentle st text ((out, none), after) mild = mild
  after_apply-IsGentle st text ((out, some f), after) mild = mild

  apply-IsGentle :
      (st : State W) → IsGentle st (deploy_apply_action run bundle_dir h disk j to_json st)
  unfolding deploy_apply_action
  apply-IsGentle st =
      let tried =
        apply (host_at run bundle_dir h disk j to_json st) bundle_dir disk
          (sync_profile h bundle_dir) st.bundle in
      let applied : State W = record st { bundle = tried.1 } in
      elim (Outcome-cases tried.0) [
        | inr (e, failed) ↦ rw (failed, deploy_apply_action) (refl, inl refl)
        | inl (text, done) ↦
            rw (done, deploy_apply_action)
              (after_apply-IsGentle st text _ (
                later st applied (refl, inl refl)
                  (run (reload_script run bundle_dir h disk j to_json) st.world)))
      ]

  edited-IsGentle :
      (st : State W) (text : String) (done : Result EditError (Unit {0}) × Disk)
      → IsAtomic (system run bundle_dir h disk j to_json) st.profile done
      → IsGentle st (edited run bundle_dir h disk j to_json text st done)
  edited-IsGentle st text (ok u, profile) kept = (refl, kept)
  edited-IsGentle st text (err e, profile) kept = (refl, inl kept)

  add-IsGentle :
      (req : ActionRequest) (st : State W)
      → IsGentle st (registry_add_action run bundle_dir h disk j to_json req st)
  unfolding registry_add_action
  add-IsGentle req st =
      let sys = system run bundle_dir h disk j to_json in
      edited-IsGentle st _ (add_service sys req.target req.service st.profile) (
        replaced-IsAtomic sys st.profile _
          (add_service-IsReplaced sys req.target req.service st.profile))

  remove-IsGentle :
      (req : ActionRequest) (st : State W)
      → IsGentle st (registry_remove_action run bundle_dir h disk j to_json req st)
  unfolding registry_remove_action
  remove-IsGentle req st =
      let sys = system run bundle_dir h disk j to_json in
      edited-IsGentle st _ (remove_service sys req.target st.profile)
        (remove_service-IsAtomic sys req.target st.profile)

  service-IsGentle :
      (st : State W) (service action : String)
      → IsGentle st (service_action run bundle_dir h disk j to_json service action st)
  service-IsGentle st service action = ran-IsGentle st (
      run_service_action run bundle_dir (active_registry run bundle_dir h disk j to_json st) service
        action st.world)

  reload-IsGentle :
      (st : State W)
      → IsGentle st (
          command run bundle_dir h disk j to_json
            (reload_script run bundle_dir h disk j to_json)
            st)
  reload-IsGentle st =
      ran-IsGentle st (run (reload_script run bundle_dir h disk j to_json) st.world)

  pub perform-IsGentle :
      (req : ActionRequest) (st : State W)
      → IsGentle st (perform run bundle_dir h disk j to_json req st)
  unfolding perform
  perform-IsGentle req st =
      either st (req.action == "service.start") _ _ (service-IsGentle st req.target "start") (
        either st (req.action == "service.stop") _ _ (service-IsGentle st req.target "stop") (
          either st (req.action == "service.restart") _ _ (service-IsGentle st req.target "restart")
            (either st (req.action == "caddy.validate") _ _ (validate-IsGentle st) (
              either st (req.action == "caddy.reload") _ _ (reload-IsGentle st) (
                either st (req.action == "admin.restart") _ _
                  (service-IsGentle st "admin" "restart")
                  (either st (req.action == "deploy.preview") _ _ (preview-IsGentle st) (
                    either st (req.action == "deploy.apply") _ _ (apply-IsGentle st) (
                      either st (req.action == "registry.add") _ _ (add-IsGentle req st) (
                        either st (req.action == "registry.remove") _ _ (remove-IsGentle req st)
                          (refl, inl refl))))))))))
