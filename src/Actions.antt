-- ===== src/Actions.antt =====
-- portable/home-stack/admin/actions.go: the registry of typed actions, the operations that a
-- service's entry allows, the check of a request; and `runServiceAction` of main.go.
pub mod Policy
pub mod Requests
pub mod Admitted
pub mod Commands
use home_stack.Prelude.{
  Bool, true, false, ◌&&◌, ◌||◌, not, List, [], ◌∷◌, ◌++◌, Option, none, some, String, ◌==◌, Map,
  lookup, any, trim_prefix, if◌then◌else◌, Result, ok, err, ◌>>=◌, ◌>>◌, refuse_if,
}
use home_stack.Prelude.Paths.{join}
use home_stack.Registry.{Service, Registry, is_enabled, is_scheduled_task}

pub record ActionDescriptor : Type 0 where
  pub id : String
  pub target : String
  pub label : String
  pub risk : String
  pub requires_confirmation : Bool
  pub expected_effect : String
  pub rollback_hint : String
  pub allowed_targets : List String

abbrev pub descriptor : String → String → String → Bool → String → List String → ActionDescriptor
descriptor id label risk confirm effect targets = record {
  id = id;
  target = "";
  label = label;
  risk = risk;
  requires_confirmation = confirm;
  expected_effect = effect;
  rollback_hint = "";
  allowed_targets = targets;
}

abbrev pub service_start : ActionDescriptor
service_start =
    descriptor "service.start" "Start service" "caution" true "Starts a launchd-managed service" []

abbrev pub service_stop : ActionDescriptor
service_stop =
    descriptor "service.stop" "Stop service" "destructive" true "Stops a launchd-managed service" []

abbrev pub service_restart : ActionDescriptor
service_restart =
    descriptor "service.restart" "Restart service" "caution" true
      "Restarts a launchd-managed service" []

abbrev pub caddy_validate : ActionDescriptor
caddy_validate =
    descriptor "caddy.validate" "Validate Caddy" "safe" false "Renders and validates the Caddyfile"
      ("caddy" ∷ [])

abbrev pub caddy_reload : ActionDescriptor
caddy_reload =
    descriptor "caddy.reload" "Reload Caddy" "caution" true
      "Reloads Caddy configuration without restarting the daemon" ("caddy" ∷ [])

abbrev pub admin_restart : ActionDescriptor
admin_restart =
    descriptor "admin.restart" "Restart Admin" "caution" true
      "Restarts this admin service; the webapp will reconnect" ("admin" ∷ [])

abbrev pub deploy_preview : ActionDescriptor
deploy_preview =
    descriptor "deploy.preview" "Preview Changes" "safe" false
      "Shows what would change before applying" ("system" ∷ [])

abbrev pub deploy_apply : ActionDescriptor
deploy_apply =
    descriptor "deploy.apply" "Apply Changes" "caution" true
      "Regenerates Caddyfile, plists, and reloads Caddy" ("system" ∷ [])

abbrev pub registry_add : ActionDescriptor
registry_add =
    descriptor "registry.add" "Add Service" "caution" true
      "Adds or updates a service in the registry" ("system" ∷ [])

abbrev pub registry_remove : ActionDescriptor
registry_remove =
    descriptor "registry.remove" "Remove Service" "destructive" true
      "Removes a service from the registry" ("system" ∷ [])

abbrev pub action_registry : Map ActionDescriptor
action_registry =
    ("service.start", service_start)
    ∷ ("service.stop", service_stop)
    ∷ ("service.restart", service_restart)
    ∷ ("caddy.validate", caddy_validate)
    ∷ ("caddy.reload", caddy_reload)
    ∷ ("admin.restart", admin_restart)
    ∷ ("deploy.preview", deploy_preview)
    ∷ ("deploy.apply", deploy_apply)
    ∷ ("registry.add", registry_add)
    ∷ ("registry.remove", registry_remove)
    ∷ []

unfoldable pub action_by_id : String → Option ActionDescriptor
unfolding lookup
action_by_id id = lookup id action_registry

-- A `map[string]bool` whose values are all true is the list of its keys; nil has none.
unfoldable pub service_operations : String → Service → List String
unfolding is_enabled is_scheduled_task
service_operations name svc =
    if not (is_enabled svc)
    then (if svc.lifecycle == "managed" then "stop" ∷ [] else [])
    else if svc.type == "system"
    then "reload" ∷ []
    else if name == "admin"
    then "restart" ∷ []
    else if not (svc.lifecycle == "managed")
    then []
    else if is_scheduled_task svc
    then "start" ∷ "restart" ∷ []
    else "start" ∷ "stop" ∷ "restart" ∷ []

-- `ops[op]`.
abbrev pub allows : List String → String → Bool
allows ops op = any (λ o. o == op) ops

-- `actionRegistry[serviceActionID[op]]` for the four operations of the loop.
abbrev pub offered : List String → String → ActionDescriptor → List ActionDescriptor
offered ops op desc = if allows ops op then desc ∷ [] else []

unfoldable pub actions_for_service : String → Service → List ActionDescriptor
unfolding service_operations
actions_for_service name svc =
    let ops = service_operations name svc in
    let launchd =
      offered ops "start" service_start
      ++ (offered ops "stop" service_stop
          ++ (offered ops "restart" service_restart ++ offered ops "reload" caddy_reload)) in
    let with_validate = if svc.type == "system" then caddy_validate ∷ launchd else launchd in
    elim ops [
      | [] ↦ []
      | _ ∷ _ ↦ if name == "admin" then with_validate ++ admin_restart ∷ [] else with_validate
    ]

pub record ActionRequest : Type 0 where
  pub action : String
  pub target : String
  pub confirm : Bool
  pub service : Service

-- Whether the id is one of the three that consult the registry.
abbrev pub is_service_action : String → Bool
is_service_action id = id == "service.start" || id == "service.stop" || id == "service.restart"

-- `targetAllowed`; `reg` is what `loadActiveRegistry` returns, `none` on its error.
unfoldable pub target_allowed : Option Registry → ActionDescriptor → String → Bool
unfolding lookup service_operations trim_prefix
target_allowed reg desc target =
    if is_service_action desc.id
    then elim reg [
      | none ↦ false
      | some r ↦ elim (lookup target r.services) [
        | none ↦ false
        | some svc ↦ allows (service_operations target svc) (trim_prefix desc.id "service.")
      ]
    ]
    else any (λ allowed. allowed == target) desc.allowed_targets

pub data ActionError : Type 0 where
  unknown_action : String → ActionError
  target_not_allowed : String → String → ActionError
  needs_confirmation : String → ActionError

abbrev check_request :
    Option Registry → ActionRequest → Option ActionDescriptor → Result ActionError (Unit {0})
check_request reg req none = err (unknown_action req.action)
check_request reg req (some desc) = do
  refuse_if (not (target_allowed reg desc req.target)) (target_not_allowed req.target req.action)
  refuse_if (desc.requires_confirmation && not req.confirm) (needs_confirmation req.action)

unfoldable pub validate_action_request :
    Option Registry → ActionRequest → Result ActionError (Unit {0})
validate_action_request reg req = check_request reg req (action_by_id req.action)

pub data RunError : Type 0 where
  no_registry : RunError
  unknown_service : String → RunError
  operation_not_allowed : String → String → RunError
  command_failed : String → RunError

-- `runServiceAction`. `run` starts a command, given with its arguments, in the world `W`.
module _ {W : Type 0} (run : List String → W → (String × Option RunError) × W)
    (bundle_dir : String) where
  unfoldable pub run_service_action :
      Option Registry → String → String → W → (String × Option RunError) × W
  unfolding lookup service_operations join
  run_service_action none service action w = (("", some no_registry), w)
  run_service_action (some r) service action w = elim (lookup service r.services) [
    | none ↦ (("", some (unknown_service service)), w)
    | some svc ↦
        if not (allows (service_operations service svc) action)
        then (("", some (operation_not_allowed action service)), w)
        else if service == "caddy" && action == "reload"
        then run (join (bundle_dir ∷ "scripts" ∷ "reload-caddy.sh" ∷ []) ∷ []) w
        else run (join (bundle_dir ∷ "scripts" ∷ "service-launchd.sh" ∷ []) ∷ action ∷ service ∷ [])
            w
  ]
