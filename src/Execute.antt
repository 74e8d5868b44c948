-- ===== src/Execute.antt =====
-- portable/home-stack/admin/actions.go, `executeAction` and the handlers it calls: one typed action, on
-- everything that an action can change.
pub mod Audit
pub mod Effects
pub mod Growth
use home_stack.Prelude.{
  Bool, true, false, ◌||◌, not, List, [], ◌∷◌, Option, none, some, String, ◌==◌, ◌<>◌, Result, ok,
  err, if◌then◌else◌,
}
use home_stack.Prelude.Paths
use home_stack.Registry.{Registry}
use home_stack.Actions.{ActionDescriptor, ActionRequest, RunError, action_by_id, run_service_action}
use home_stack.Edits.{Disk, System, EditError, load_registry, add_service, remove_service}
use home_stack.Artifacts.{Bundle, Storage}
use home_stack.Deploy.{
  Host, DeployDiff, DeployError, no_registry, not_loaded, unset, prefix_refused, not_generated,
  not_written, not_reloaded, apply, sync_system, sync_profile, diff,
}
use home_stack.Events.{AdminEvent, EventLog, EventError, Journal, append_event}
use home_stack.Events.Redact.{redact_output}

pub data Failure : Type 0 where
  in_run : RunError → Failure
  in_deploy : DeployError → Failure
  in_edit : EditError → Failure
  in_audit : EventError → Failure

-- What actions change: the world of the commands, the bundle, the profile's two files and the log.
pub record State (W : Type 0) : Type 0 where
  pub world : W
  pub bundle : Bundle
  pub profile : Disk
  pub log : EventLog

pub record ActionResult : Type 0 where
  pub ok : Bool
  pub message : String
  pub cause : Option Failure
  pub details : String
  pub next_actions : List String
  pub event_id : String

-- `run` starts a command, given with its arguments; `to_json` is encoding/json's text of a difference.
module _ {W : Type 0} (run : List String → W → (String × Option RunError) × W) (bundle_dir : String)
    (h : Host) (disk : Storage) (j : Journal) (to_json : DeployDiff → String) where
  -- An output, the error if there is one, and what is left.
  abbrev pub Outcome : Type 0
  Outcome = (String × Option Failure) × State W

  abbrev pub host_at : State W → Host
  host_at st = record h { registries = λ path. st.profile.registry }

  abbrev pub system : System
  system = record h.sys { parent_domain = h.getenv "HOME_STACK_PARENT_DOMAIN" }

  abbrev pub active_registry : State W → Option Registry
  active_registry st = elim (load_registry system st.profile.registry) [
    | err e ↦ none
    | ok r ↦ some r
  ]

  abbrev pub ran : State W → (String × Option RunError) × W → Outcome
  ran st ((out, none), w) = ((out, none), record st { world = w })
  ran st ((out, some e), w) = ((out, some (in_run e)), record st { world = w })

  abbrev pub command : List String → State W → Outcome
  command args st = ran st (run args st.world)

  abbrev pub service_action : String → String → State W → Outcome
  service_action service action st =
      ran st (run_service_action run bundle_dir (active_registry st) service action st.world)

  abbrev pub reload_script : List String
  reload_script = Paths.join (bundle_dir ∷ "scripts" ∷ "reload-caddy.sh" ∷ []) ∷ []

  abbrev pub reloaded : String × Option RunError → Result String String
  reloaded (out, none) = ok out
  reloaded (out, some e) = err out

  -- Whether `syncSystem` came to run the script.
  abbrev pub came_to_reload : Result DeployError String → Bool
  came_to_reload (ok text) = true
  came_to_reload (err no_registry) = false
  came_to_reload (err (not_loaded e)) = false
  came_to_reload (err (unset name)) = false
  came_to_reload (err prefix_refused) = false
  came_to_reload (err (not_generated e)) = false
  came_to_reload (err (not_written e)) = false
  came_to_reload (err (not_reloaded e)) = true

  abbrev pub deployed : Result DeployError String → State W → Outcome
  deployed (ok text) st = ((text, none), st)
  deployed (err e) st = (("", some (in_deploy e)), st)

  -- `syncSystem`, with the script that it runs.
  unfoldable pub sync : State W → Outcome
  sync st =
      let (answer, w) = run reload_script st.world in
      let (result, b) = sync_system (host_at st) bundle_dir disk (reloaded answer) st.bundle in
      deployed result
        (record st { world = if came_to_reload result then w else st.world; bundle = b })

  abbrev pub validate_command : List String
  validate_command =
      Paths.join (bundle_dir ∷ "bin" ∷ "caddy-cloudflare" ∷ [])
      ∷ "validate"
      ∷ "--config"
      ∷ Paths.join (bundle_dir ∷ "Caddyfile" ∷ [])
      ∷ []

  unfoldable pub caddy_validate_action : State W → Outcome
  caddy_validate_action st =
      let ((out, e), synced) = sync st in
      elim e [ some f ↦ ((out, some f), synced) | none ↦ command validate_command synced ]

  unfoldable pub deploy_preview_action : State W → Outcome
  deploy_preview_action st =
      elim (diff (host_at st) bundle_dir (sync_profile h bundle_dir) st.bundle) [
        | err e ↦ (("", some (in_deploy e)), st)
        | ok d ↦ ((to_json d, none), st)
      ]

  abbrev pub after_apply : String → Outcome → Outcome
  after_apply text ((out, none), st) = ((text, none), st)
  after_apply text ((out, some f), st) = ((text <> "\nreload failed: " <> out, some f), st)

  unfoldable pub deploy_apply_action : State W → Outcome
  deploy_apply_action st =
      let (result, b) = apply (host_at st) bundle_dir disk (sync_profile h bundle_dir) st.bundle in
      let applied = record st { bundle = b } in
      elim result [
        | err e ↦ (("", some (in_deploy e)), applied)
        | ok text ↦ after_apply text (command reload_script applied)
      ]

  abbrev pub edited : String → State W → Result EditError (Unit {0}) × Disk → Outcome
  edited text st (ok _, profile) = ((text, none), record st { profile = profile })
  edited text st (err e, profile) = (("", some (in_edit e)), record st { profile = profile })

  unfoldable pub registry_add_action : ActionRequest → State W → Outcome
  registry_add_action req st =
      edited ("Service " <> h.quote req.target <> " added to registry") st
        (add_service system req.target req.service st.profile)

  unfoldable pub registry_remove_action : ActionRequest → State W → Outcome
  registry_remove_action req st =
      edited ("Service " <> h.quote req.target <> " removed from registry") st
        (remove_service system req.target st.profile)

  -- The switch on the action.
  unfoldable pub perform : ActionRequest → State W → Outcome
  perform req st =
      if req.action == "service.start"
      then service_action req.target "start" st
      else if req.action == "service.stop"
      then service_action req.target "stop" st
      else if req.action == "service.restart"
      then service_action req.target "restart" st
      else if req.action == "caddy.validate"
      then caddy_validate_action st
      else if req.action == "caddy.reload"
      then command reload_script st
      else if req.action == "admin.restart"
      then service_action "admin" "restart" st
      else if req.action == "deploy.preview"
      then deploy_preview_action st
      else if req.action == "deploy.apply"
      then deploy_apply_action st
      else if req.action == "registry.add"
      then registry_add_action req st
      else if req.action == "registry.remove"
      then registry_remove_action req st
      else (("", none), st)

  abbrev label_of : Option ActionDescriptor → String
  label_of none = ""
  label_of (some desc) = desc.label

  abbrev risk_of : Option ActionDescriptor → String
  risk_of none = ""
  risk_of (some desc) = desc.risk

  -- The result before the audit. `now` is the second at which the action ended.
  unfoldable pub result_of : ActionRequest → String → String → Option Failure → ActionResult
  result_of req now out e =
      let shown = if req.action == "deploy.preview" then out else redact_output h.getenv out in
      let label = label_of (action_by_id req.action) in
      let id = "evt_" <> now <> "_" <> req.target <> "_" <> req.action in
      elim e [
        | some f ↦ record {
          ok = false;
          message = label <> " failed";
          cause = some f;
          details = shown;
          next_actions = "events.open" ∷ "doctor.open" ∷ [];
          event_id = id;
        }
        | none ↦ record {
          ok = true;
          message = label <> " completed";
          cause = none;
          details = if out == "" then "" else shown;
          next_actions = [];
          event_id = id;
        }
      ]

  unfoldable pub event_of : String → ActionRequest → ActionResult → AdminEvent
  event_of actor req result = record {
    id = result.event_id;
    actor = actor;
    action = req.action;
    target = req.target;
    risk = risk_of (action_by_id req.action);
    ok = result.ok;
    message = result.message;
    details = result.details;
  }

  abbrev audit_failed : EventError → ActionResult → ActionResult
  audit_failed e result = record result {
    ok = false;
    message = "action audit failed";
    cause = some (in_audit e);
    details =
        "The requested action ran, but the admin event log could not be written. Check HOME_STACK_CONFIG_DIR permissions.";
    next_actions = "doctor.open" ∷ [];
  }

  unfoldable pub audit : String → ActionRequest → ActionResult → State W → ActionResult × State W
  audit actor req result st =
      let (written, log) = append_event j (event_of actor req result) st.log in
      elim written [
        | ok _ ↦ (result, record st { log = log })
        | err e ↦ (audit_failed e result, record st { log = log })
      ]

  unfoldable pub execute_action : String → String → ActionRequest → State W → ActionResult × State W
  execute_action actor now req st =
      let ((out, e), after) = perform req st in audit actor req (result_of req now out e) after
