-- ===== src/Actions/Admitted.antt =====
-- actions.go, `validateActionRequest`, against the policy of the actions, target by target.
use home_stack.Prelude.{Bool, true, false, ◌≡◌, ◌≢◌, ◌⊎◌, String, some, Option, lookup}
use home_stack.Registry.{Service, Registry, is_enabled, is_scheduled_task}
use home_stack.Actions.{ActionDescriptor, action_by_id, target_allowed}

-- The target is a service of the registry, if that can be loaded.
abbrev pub IsService : Option Registry → String → Service → Type 0
IsService reg target svc = (r : Registry) × (reg ≡ some r) × (lookup target r.services ≡ some svc)

-- Which action goes with which target, and what has to hold of it; `confirmed` is whether the request
-- says so.
pub data IsAdmitted (reg : Option Registry) (target : String) (confirmed : Bool)
    : String → Type 0 where
  starts :
      (svc : Service)
      → IsService reg target svc
      → is_enabled svc ≡ true
      → svc.type ≢ "system"
      → target ≢ "admin"
      → svc.lifecycle ≡ "managed"
      → confirmed ≡ true
      → IsAdmitted reg target confirmed "service.start"
  stops :
      (svc : Service)
      → IsService reg target svc
      → svc.lifecycle ≡ "managed"
      → (is_enabled svc ≡ false)
        ⊎ ((svc.type ≢ "system") × (target ≢ "admin") × (is_scheduled_task svc ≡ false))
      → confirmed ≡ true
      → IsAdmitted reg target confirmed "service.stop"
  restarts :
      (svc : Service)
      → IsService reg target svc
      → is_enabled svc ≡ true
      → svc.type ≢ "system"
      → (target ≡ "admin") ⊎ (svc.lifecycle ≡ "managed")
      → confirmed ≡ true
      → IsAdmitted reg target confirmed "service.restart"
  validates_caddy : target ≡ "caddy" → IsAdmitted reg target confirmed "caddy.validate"
  reloads_caddy :
      target ≡ "caddy" → confirmed ≡ true → IsAdmitted reg target confirmed "caddy.reload"
  restarts_admin :
      target ≡ "admin" → confirmed ≡ true → IsAdmitted reg target confirmed "admin.restart"
  previews : target ≡ "system" → IsAdmitted reg target confirmed "deploy.preview"
  applies : target ≡ "system" → confirmed ≡ true → IsAdmitted reg target confirmed "deploy.apply"
  adds : target ≡ "system" → confirmed ≡ true → IsAdmitted reg target confirmed "registry.add"
  removes : target ≡ "system" → confirmed ≡ true → IsAdmitted reg target confirmed "registry.remove"

module _ (reg : Option Registry) (target : String) (confirmed : Bool) where
  -- An action of the table, where its own conditions hold, is admitted.
  abbrev Admits : String × ActionDescriptor → Type 0
  Admits (id, desc) =
      target_allowed reg desc target ≡ true
      → (desc.requires_confirmation ≡ true → confirmed ≡ true)
      → IsAdmitted reg target confirmed id

module _ (reg : Option Registry) (target : String) (confirmed : Bool) where
  -- What is permitted of an action, whoever asks for it.
  abbrev IsFine : String → Type 0
  IsFine id =
      (desc : ActionDescriptor) × (action_by_id id ≡ some desc)
      × (target_allowed reg desc target ≡ true)
      × (desc.requires_confirmation ≡ true → confirmed ≡ true)
