-- ===== src/Health/Stack.antt =====
-- main.go, `collectServices`, and incidents.go: what the states of the services say of the stack.
use home_stack.Prelude.{
  true, false, ◌≡◌, ◌⊎◌, List, [], ◌∷◌, String, ◌==◌, arith, refl, inl, inr, Option, none, some,
  Bool-cases, Option-cases, eq_iff, Map, All, All-imp, All-sort_by, All-zip, ◌∙◌, sym, ap,
}
use home_stack.Registry.{Service, Registry, is_enabled}
use home_stack.Validity.Tokens.{==-eq-false, differ}
use home_stack.Health.{
  Incident, ServiceStatus, by_name_from, still_loaded, LaunchdService, Probes, is_optional_service,
  incident_of, derive_incidents, derive_overall, service_status, statuses, collect_services,
  overall_state_from_incidents,
}
use home_stack.Health.Overall.{worst, overall_state-worst}
use home_stack.Health.Incidents.{optional_info, down_raises, ok_quiet, settle-disabled}

-- The state is derived from the rest, and the kind is that of the entry.
abbrev IsDerived : ServiceStatus → Type 0
IsDerived s =
    (s.overall_state ≡ derive_overall s)
    × ((svc : Service) × (s.desired ≡ some svc) × (s.kind ≡ svc.kind))

status_cases :
    (probes : Probes) (launchd : Map LaunchdService) (parent_domain name : String) (svc : Service)
    → ((service_status probes launchd parent_domain name svc).overall_state ≡ "disabled")
      ⊎ IsDerived (service_status probes launchd parent_domain name svc)
unfolding service_status derive_overall
status_cases probes launchd parent_domain name svc = elim (Bool-cases (is_enabled svc)) [
  | inl e ↦ simp e (inr (refl, (_, refl, refl)))
  | inr e ↦ simp e (inl refl)
]

abbrev IsStatus : ServiceStatus → Type 0
IsStatus s = (s.overall_state ≡ "disabled") ⊎ IsDerived s

statuses-IsStatus :
    (probes : Probes) (launchd : Map LaunchdService) (parent_domain : String)
    (services : Map Service)
    → All IsStatus (statuses probes launchd parent_domain services)
unfolding statuses
statuses-IsStatus probes launchd parent_domain [] = tt
statuses-IsStatus probes launchd parent_domain ((name, svc) ∷ rest) = (
  status_cases probes launchd parent_domain name svc,
  statuses-IsStatus probes launchd parent_domain rest,
)

enabled_of_derived : (s : ServiceStatus) → IsDerived s → (s.overall_state == "disabled") ≡ false
unfolding derive_overall
enabled_of_derived s (derived, _) =
    (==-eq-false s.overall_state "disabled").1 (λ e. settle-disabled _ _ _ (sym derived ∙ e))

-- The severity of an incident, and "info" where there is none.
abbrev severity_of : Option Incident → String
severity_of none = "info"
severity_of (some i) = i.severity

-- The services as they are collected, each in order or switched off.
abbrev pub IsCalm : ServiceStatus → Type 0
IsCalm s = (s.overall_state ≡ "ok") ⊎ (s.overall_state ≡ "disabled")

module _ (quote : String → String) where
  abbrev IsHarmless : ServiceStatus → Type 0
  IsHarmless s = (i : Incident) → incident_of quote s ≡ some i → i.severity ≡ "info"

  -- A service whose state is "down" has an incident.
  pub service_down_raises :
      (probes : Probes) (launchd : Map LaunchdService) (parent_domain name : String) (svc : Service)
      → (service_status probes launchd parent_domain name svc).overall_state ≡ "down"
      → (i : Incident) × (incident_of quote (service_status probes launchd parent_domain name svc)
          ≡ some i)
  service_down_raises probes launchd parent_domain name svc is_down =
      elim (status_cases probes launchd parent_domain name svc) [
        | inl off ↦ absurd (differ refl off is_down)
        | inr derived ↦ down_raises quote _ (enabled_of_derived _ derived) (sym derived.0 ∙ is_down)
      ]

  disabled-IsHarmless : (s : ServiceStatus) → s.overall_state ≡ "disabled" → IsHarmless s
  unfolding incident_of
  disabled-IsHarmless s off i found =
      let here : (s.overall_state == "disabled") ≡ true =
        (eq_iff s.overall_state "disabled").1 off in
      elim (Bool-cases (still_loaded s.launchd)) [
        | inl e ↦ ap severity_of (sym (simp (here, e) at found))
        | inr e ↦ ap severity_of (sym (simp (here, e) at found))
      ]

  -- An optional scheduled job.
  scheduled_optional :
      (s : ServiceStatus) → IsDerived s → s.kind ≡ "scheduled" → is_optional_service s ≡ true
  unfolding is_optional_service
  scheduled_optional s (_, (svc, known, same)) scheduled =
      rw (known, is_optional_service)
        (let e : svc.kind ≡ "scheduled" = sym same ∙ scheduled in
          ground (arith, eq_iff svc.kind "scheduled"))

  ok-IsHarmless : (s : ServiceStatus) → IsDerived s → s.overall_state ≡ "ok" → IsHarmless s
  ok-IsHarmless s derived is_ok i found =
      elim (ok_quiet quote s (enabled_of_derived s derived) (sym derived.0 ∙ is_ok)) [
        | inl e ↦ cc
        | inr e ↦ optional_info quote s i (scheduled_optional s derived e) found
      ]

  calm-IsHarmless : (s : ServiceStatus) → IsStatus s × IsCalm s → IsHarmless s
  calm-IsHarmless s (_, inr off) = disabled-IsHarmless s off
  calm-IsHarmless s (inl off, inl is_ok) = disabled-IsHarmless s off
  calm-IsHarmless s (inr derived, inl is_ok) = ok-IsHarmless s derived is_ok

  harmless_incidents :
      (services : List ServiceStatus)
      → All IsHarmless services
      → worst "healthy" (derive_incidents quote services) ≡ "healthy"
  unfolding derive_incidents worst
  harmless_incidents [] _ = refl
  harmless_incidents (s ∷ rest) (harmless, later) = elim (Option-cases (incident_of quote s)) [
    | inl e ↦ rw (e, derive_incidents) (harmless_incidents rest later)
    | inr (i, e) ↦
        let info = harmless i e in
        rw (e, derive_incidents) (simp info (harmless_incidents rest later))
  ]

  -- When every service of the registry is in order or switched off, the stack is healthy.
  pub calm_healthy :
      (probes : Probes) (launchd : List LaunchdService) (parent_domain : String)
      (registry : Registry)
      → All IsCalm (collect_services probes launchd parent_domain registry)
      → overall_state_from_incidents
          (derive_incidents quote (collect_services probes launchd parent_domain registry))
        ≡ "healthy"
  unfolding collect_services
  calm_healthy probes launchd parent_domain registry calm =
      let cases =
        All-sort_by IsStatus (λ s. s.name) _
          (statuses-IsStatus probes (by_name_from launchd []) parent_domain registry.services) in
      overall_state-worst _
      ∙ harmless_incidents _ (
          All-imp (λ s. IsStatus s × IsCalm s) calm-IsHarmless _
            (All-zip IsStatus IsCalm _ cases calm))
