-- ===== src/Tests/Policy.antt =====
-- The theorems on the registry and the actions, in the small house.
use home_stack.Prelude.{
  true, false, ◌≡◌, ◌↔◌, inl, inr, refl, List, [], ◌∷◌, Option, none, some, String, lookup, arith,
  ok,
}
use home_stack.Prelude.Paths
use mathlib.Core.List.Permᴰ
use home_stack.Validate.{validate}
use home_stack.Validity.{IsValid}
use home_stack.Validity.Accepts.{validate_iff}
use home_stack.Validity.Order.{validate-perm}
use home_stack.Actions.{
  ActionRequest, RunError, action_by_id, target_allowed, service_start, service_stop,
  service_restart, service_operations, allows, actions_for_service, validate_action_request,
  run_service_action,
}
use home_stack.Actions.Policy.{offers, offers-eq-target_allowed, control_plane_kept}
use home_stack.Actions.Commands.{IsAuthorized, permitted_runs}
use home_stack.Tests.{house, turned_house, house-valid, admin_service, notes, blank}

validate_iff_example :
    (validate house "home.example.com" ≡ ok tt) ↔ IsValid house "home.example.com"
validate_iff_example = validate_iff house "home.example.com"

validate-perm_example :
    (validate house "home.example.com" ≡ ok tt) ↔ (validate turned_house "home.example.com" ≡ ok tt)
unfolding lookup
validate-perm_example =
    validate-perm house turned_house "home.example.com" (Permᴰ.swap refl refl)
      (refl, (refl, (refl, tt)))

abbrev start_notes : ActionRequest
start_notes = record { action = "service.start"; target = "notes"; confirm = true; service = blank }

start_notes-passes : validate_action_request (some house) start_notes ≡ ok tt
unfolding validate_action_request action_by_id target_allowed
start_notes-passes = refl

-- A world that records the commands that were started.
abbrev record_command :
    List String → List (List String) → (String × Option RunError) × List (List String)
record_command command log = (("done", none), command ∷ log)

permitted_runs_example :
    run_service_action record_command "/opt/home-stack" (some house) "notes" "start" []
    ≡ record_command
        (Paths.join ("/opt/home-stack" ∷ "scripts" ∷ "service-launchd.sh" ∷ [])
          ∷ "start"
          ∷ "notes"
          ∷ [])
        []
permitted_runs_example =
    permitted_runs record_command "/opt/home-stack" (some house) start_notes "start" [] (inl refl)
      refl start_notes-passes

admin-found : lookup "admin" house.services ≡ some admin_service
unfolding lookup
admin-found = refl

stop_admin-forbidden : allows (service_operations "admin" admin_service) "stop" ≡ false
unfolding service_operations
stop_admin-forbidden = refl

stop_admin-unauthorized : ¬ IsAuthorized (some house) "admin" "stop"
stop_admin-unauthorized (r, svc, same, found, allowed) =
    let known : lookup "admin" house.services ≡ some admin_service = admin-found in
    let e : svc ≡ admin_service = cc in
    let k = rw e at allowed in let never = stop_admin-forbidden in ground arith

offers-eq-target_allowed_example :
    (offers (actions_for_service "notes" notes) "service.start"
      ≡ target_allowed (some house) service_start "notes")
    × (offers (actions_for_service "notes" notes) "service.stop"
        ≡ target_allowed (some house) service_stop "notes")
    × (offers (actions_for_service "notes" notes) "service.restart"
        ≡ target_allowed (some house) service_restart "notes")
unfolding lookup
offers-eq-target_allowed_example = offers-eq-target_allowed house "notes" notes refl

control_plane_kept_example :
    (target_allowed (some house) service_stop "admin" ≡ false)
    × (target_allowed (some house) service_start "admin" ≡ false)
unfolding lookup
control_plane_kept_example =
    control_plane_kept house "home.example.com" "admin" admin_service house-valid refl (inr refl)
