-- ===== src/Actions/Policy.antt =====
-- actions.go, `serviceOperations` and `actionsForService`: which operations a service allows, and
-- that the buttons are those that a request may name.
use home_stack.Prelude.{
  Bool, true, false, ◌≡◌, ◌≢◌, ◌↔◌, ◌⊎◌, List, String, ◌==◌, eq_iff, arith, any, some, lookup,
  Bool-cases, inl, inr, ok,
}
use home_stack.Registry.{Service, Registry, is_enabled, is_scheduled_task}
use home_stack.Validate.{validate}
use home_stack.Validity.Consequences.{kept_enabled}
use home_stack.Actions.{
  ActionDescriptor, service_start, service_stop, service_restart, service_operations, allows,
  actions_for_service, target_allowed,
}

-- A service can be started when it is on, managed, and neither the ingress nor Admin; stopped when it
-- is managed and either off, or neither the ingress, nor Admin, nor a scheduled task; restarted when it
-- is on, not the ingress, and Admin or managed; reloaded when it is on and the ingress.
pub service_operations_iff :
    (name : String) (svc : Service)
    → ((allows (service_operations name svc) "start" ≡ true) ↔ (
        (is_enabled svc ≡ true)
        × (svc.type ≢ "system")
        × (name ≢ "admin")
        × (svc.lifecycle ≡ "managed")))
      × ((allows (service_operations name svc) "stop" ≡ true) ↔ (
          (svc.lifecycle ≡ "managed")
          × ((is_enabled svc ≡ false)
              ⊎ ((svc.type ≢ "system") × (name ≢ "admin") × (is_scheduled_task svc ≡ false)))))
      × ((allows (service_operations name svc) "restart" ≡ true) ↔ (
          (is_enabled svc ≡ true)
          × (svc.type ≢ "system")
          × ((name ≡ "admin") ⊎ (svc.lifecycle ≡ "managed"))))
      × ((allows (service_operations name svc) "reload" ≡ true)
          ↔ ((is_enabled svc ≡ true) × (svc.type ≡ "system")))
unfolding service_operations is_enabled is_scheduled_task
service_operations_iff name svc = (
  ground (arith, eq_iff svc.type "system", eq_iff name "admin", eq_iff svc.lifecycle "managed"),
  ground (arith, eq_iff svc.type "system", eq_iff name "admin", eq_iff svc.lifecycle "managed"),
  ground (arith, eq_iff svc.type "system", eq_iff name "admin", eq_iff svc.lifecycle "managed"),
  ground (arith, eq_iff svc.type "system", eq_iff name "admin", eq_iff svc.lifecycle "managed"),
)

abbrev pub offers : List ActionDescriptor → String → Bool
offers l id = any (λ d. d.id == id) l

-- For a registered service, the buttons that are shown for start, stop and restart are the requests
-- that the check of the target lets through.
pub offers-eq-target_allowed :
    (r : Registry) (name : String) (svc : Service)
    → lookup name r.services ≡ some svc
    → (offers (actions_for_service name svc) "service.start"
        ≡ target_allowed (some r) service_start name)
      × (offers (actions_for_service name svc) "service.stop"
          ≡ target_allowed (some r) service_stop name)
      × (offers (actions_for_service name svc) "service.restart"
          ≡ target_allowed (some r) service_restart name)
unfolding actions_for_service service_operations target_allowed
offers-eq-target_allowed r name svc found = (
  rw (found, target_allowed) (ground arith),
  rw (found, target_allowed) (ground arith),
  rw (found, target_allowed) (ground arith),
)

-- In a valid registry no request may stop or start the ingress or the admin service.
pub control_plane_kept :
    (r : Registry) (parent_domain name : String) (svc : Service)
    → validate r parent_domain ≡ ok tt
    → lookup name r.services ≡ some svc
    → (svc.type ≡ "system") ⊎ (name ≡ "admin")
    → (target_allowed (some r) service_stop name ≡ false)
      × (target_allowed (some r) service_start name ≡ false)
unfolding target_allowed
control_plane_kept r pd name svc valid found k =
    let on = kept_enabled r pd name svc valid found k in
    let (start, stop, _, _) = service_operations_iff name svc in
    (
      rw (found, target_allowed)
          (elim (Bool-cases (allows (service_operations name svc) "stop")) [
            | inr forbidden ↦ forbidden
            | inl allowed ↦ elim (stop.0 allowed).1 [
              | inl off ↦ cc (on, off)
              | inr (routed, other, _) ↦ absurd (elim k [ inl e ↦ routed e | inr e ↦ other e ])
            ]
          ]),
      rw (found, target_allowed)
          (elim (Bool-cases (allows (service_operations name svc) "start")) [
            | inr forbidden ↦ forbidden
            | inl allowed ↦
                let (_, routed, other, _) = start.0 allowed in
                absurd (elim k [ inl e ↦ routed e | inr e ↦ other e ])
          ]),
    )
