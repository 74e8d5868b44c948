-- ===== src/Actions/Commands.antt =====
-- main.go, `runServiceAction`: the second check, and the one command that follows it.
use home_stack.Prelude.{
  true, false, ◌≡◌, List, [], ◌∷◌, String, ◌<>◌, ◌==◌, some, none, lookup, refl, Option,
  Option-cases, Bool-cases, inl, inr, ok, ap, trim_prefix,
}
use home_stack.Prelude.Paths.{join}
use home_stack.Registry.{Service, Registry}
use home_stack.Validity.{OneOf}
use home_stack.Actions.{
  ActionRequest, ActionDescriptor, service_start, service_stop, service_restart, RunError,
  unknown_service, operation_not_allowed, is_service_action, service_operations, allows,
  target_allowed, action_by_id, validate_action_request, run_service_action,
}
use home_stack.Actions.Requests.{validate_action_request_iff}

-- The registry loads, has the service, and the service allows the operation.
abbrev pub IsAuthorized : Option Registry → String → String → Type 0
IsAuthorized reg service action =
    (r : Registry) × (svc : Service) × (reg ≡ some r)
    × (lookup service r.services ≡ some svc)
    × (allows (service_operations service svc) action ≡ true)

module _ {W : Type 0} (run : List String → W → (String × Option RunError) × W)
    (bundle_dir : String) where
  -- Without authority no command is started: the call fails and the world is as it was.
  pub run_service_action_refused :
      (reg : Option Registry) (service action : String) (w : W)
      → ¬ IsAuthorized reg service action
      → (e : RunError) × (run_service_action run bundle_dir reg service action w
          ≡ (("", some e), w))
  unfolding run_service_action
  run_service_action_refused none service action w h = (_, refl)
  run_service_action_refused (some r) service action w h =
      elim (Option-cases (lookup service r.services)) [
        | inl missing ↦ (unknown_service service, rw (missing, run_service_action))
        | inr (svc, found) ↦ elim (Bool-cases (allows (service_operations service svc) action)) [
          | inl allowed ↦ absurd (h (r, svc, refl, found, allowed))
          | inr refused ↦
              (operation_not_allowed action service, rw (found, run_service_action, refused))
        ]
      ]

  launchd_command :
      (r : Registry) (svc : Service) (service action : String) (w : W)
      → lookup service r.services ≡ some svc
      → allows (service_operations service svc) action ≡ true
      → (action == "reload") ≡ false
      → run_service_action run bundle_dir (some r) service action w
        ≡ run (join (bundle_dir ∷ "scripts" ∷ "service-launchd.sh" ∷ []) ∷ action ∷ service ∷ []) w
  unfolding run_service_action
  launchd_command r svc service action w found allowed other =
      elim (Bool-cases (service == "caddy")) [
        | inl caddy ↦ rw (found, run_service_action, allowed, caddy, other) refl
        | inr plain ↦ rw (found, run_service_action, allowed, plain) refl
      ]

  -- The first check, read back: an allowed target is an authorized operation.
  allowed-IsAuthorized :
      (reg : Option Registry) (desc : ActionDescriptor) (target : String)
      → is_service_action desc.id ≡ true
      → target_allowed reg desc target ≡ true
      → IsAuthorized reg target (trim_prefix desc.id "service.")
  unfolding target_allowed
  allowed-IsAuthorized none desc target service h = cc (rw service at h)
  allowed-IsAuthorized (some r) desc target service h =
      elim (Option-cases (lookup target r.services)) [
        | inl missing ↦ cc (rw (missing, target_allowed, service) at h)
        | inr (svc, found) ↦ (r, svc, refl, found, rw (found, target_allowed, service) at h)
      ]

  permitted_runs_op :
      (reg : Option Registry) (req : ActionRequest) (op : String) (desc : ActionDescriptor) (w : W)
      → action_by_id ("service." <> op) ≡ some desc
      → is_service_action desc.id ≡ true
      → trim_prefix desc.id "service." ≡ op
      → (op == "reload") ≡ false
      → req.action ≡ "service." <> op
      → validate_action_request reg req ≡ ok tt
      → run_service_action run bundle_dir reg req.target op w
        ≡ run (join (bundle_dir ∷ "scripts" ∷ "service-launchd.sh" ∷ []) ∷ op ∷ req.target ∷ []) w
  permitted_runs_op reg req op desc w listed service trimmed other named passed =
      let (d, found, target, _) = (validate_action_request_iff reg req).0 passed in
      let same : d ≡ desc = cc (ap action_by_id named) in
      let (r, svc, loaded, entry, allowed) =
        allowed-IsAuthorized reg desc req.target service (rw same at target) in
      rw loaded (launchd_command r svc req.target op w entry (rw trimmed at allowed) other)

  -- A service request that passes the first check passes the second too, and starts exactly the
  -- launchd script, with the operation and the target of the request.
  pub permitted_runs :
      (reg : Option Registry) (req : ActionRequest) (op : String) (w : W)
      → OneOf op ("start" ∷ "stop" ∷ "restart" ∷ [])
      → req.action ≡ "service." <> op
      → validate_action_request reg req ≡ ok tt
      → run_service_action run bundle_dir reg req.target op w
        ≡ run (join (bundle_dir ∷ "scripts" ∷ "service-launchd.sh" ∷ []) ∷ op ∷ req.target ∷ []) w
  unfolding action_by_id trim_prefix
  permitted_runs reg req op w (inl e) named passed =
      rw e (
        permitted_runs_op reg req "start" service_start w refl refl refl refl (rw e at named)
          passed)
  permitted_runs reg req op w (inr (inl e)) named passed =
      rw e
        (permitted_runs_op reg req "stop" service_stop w refl refl refl refl (rw e at named) passed)
  permitted_runs reg req op w (inr (inr (inl e))) named passed = rw e (
      permitted_runs_op reg req "restart" service_restart w refl refl refl refl (rw e at named)
        passed)
  permitted_runs reg req op w (inr (inr (inr e))) named passed = absurd e
