-- ===== src/Pages/Overview.antt =====
-- main.go, `handleOverview`: the parts of the answer agree with the services and with each other.
use home_stack.Prelude.{
  arith, ◌≡◌, ◌⊎◌, inl, inr, refl, sym, subst, ◌∙◌, List, [], ◌∷◌, Memᴰ, some, String, Map, length,
  length-sort_by, All, All-imp, All-sort_by, Result, ok, err, Option-cases, Outcome-cases,
}
use home_stack.Registry.{Service, Registry}
use home_stack.Edits.{File, LoadError, System, load_registry}
use home_stack.Events.{Journal, EventLog}
use home_stack.Http.{page, refusal}
use home_stack.Health.{
  LaunchdService, Probes, ServiceStatus, Incident, collect_services, statuses, incident_of,
  derive_incidents, by_name_from,
}
use home_stack.Health.Stack.{IsCalm, calm_healthy, service_down_raises}
use home_stack.Health.Overall.{worst, overall_state-worst, total, count_service_states-total}
use home_stack.Pages.{OverviewResponse, launchd_or_nothing, overview_of, collected, handle_overview}

length-statuses :
    (probes : Probes) (launchd : Map LaunchdService) (parent_domain : String)
    (services : Map Service)
    → length (statuses probes launchd parent_domain services) ≡ length services
unfolding statuses
length-statuses probes launchd parent_domain [] = refl
length-statuses probes launchd parent_domain (entry ∷ rest) =
    omega (arith, length-statuses probes launchd parent_domain rest)

length-collect_services :
    (probes : Probes) (launchd : List LaunchdService) (parent_domain : String) (r : Registry)
    → length (collect_services probes launchd parent_domain r) ≡ length r.services
unfolding collect_services
length-collect_services probes launchd parent_domain r =
    let all = statuses probes (by_name_from launchd []) parent_domain r.services in
    length-sort_by (λ s. s.name) all
    ∙ length-statuses probes (by_name_from launchd []) parent_domain r.services

module _ (quote : String → String) where
  -- A service that is down is named by one of the incidents.
  abbrev pub IsReported : List Incident → ServiceStatus → Type 0
  IsReported incidents s =
      s.overall_state ≡ "down" → (i : Incident) × Memᴰ i incidents × (i.service ≡ s.name)

  incident-service :
      (s : ServiceStatus) (i : Incident) → incident_of quote s ≡ some i → i.service ≡ s.name
  unfolding incident_of
  incident-service s i found = ground arith

  abbrev DownRaises : ServiceStatus → Type 0
  DownRaises s = s.overall_state ≡ "down" → (i : Incident) × (incident_of quote s ≡ some i)

  statuses-DownRaises :
      (probes : Probes) (launchd : Map LaunchdService) (parent_domain : String)
      (services : Map Service)
      → All DownRaises (statuses probes launchd parent_domain services)
  unfolding statuses
  statuses-DownRaises probes launchd parent_domain [] = tt
  statuses-DownRaises probes launchd parent_domain ((name, svc) ∷ rest) = (
    service_down_raises quote probes launchd parent_domain name svc,
    statuses-DownRaises probes launchd parent_domain rest,
  )

  more-IsReported :
      (more : Incident) (incidents : List Incident) (s : ServiceStatus)
      → IsReported incidents s
      → IsReported (more ∷ incidents) s
  more-IsReported more incidents s reported is_down =
      let (i, there, named) = reported is_down in (i, Memᴰ.tail there, named)

  All-IsReported :
      (services : List ServiceStatus)
      → All DownRaises services
      → All (IsReported (derive_incidents quote services)) services
  unfolding derive_incidents
  All-IsReported [] raises = tt
  All-IsReported (s ∷ rest) (first, later) =
      let known : List Incident → Type 0 = λ incidents. All (IsReported incidents) (s ∷ rest) in
      elim (Option-cases (incident_of quote s)) [
        | inl quiet ↦ subst known (sym (rw (quiet, derive_incidents) refl)) (
          λ is_down. let (i, found) = first is_down in absurd (cc (quiet, found)),
          All-IsReported rest later,
        )
        | inr (i, found) ↦ subst known (sym (rw (found, derive_incidents) refl)) (
          λ is_down. (i, Memᴰ.head refl, incident-service s i found),
          All-imp (IsReported (derive_incidents quote rest))
              (more-IsReported i (derive_incidents quote rest)) rest (All-IsReported rest later),
        )
      ]

  -- What the page says of the services.
  abbrev pub Tells : List ServiceStatus → OverviewResponse → Type 0
  Tells services o =
      (total o.service_counts ≡ length services)
      × (o.overall_state ≡ worst "healthy" o.top_incidents)
      × All (IsReported o.top_incidents) services
      × (All IsCalm services → o.overall_state ≡ "healthy")

module _ (sys : System) (probes : Probes) (quote : String → String) (registry : File) {E : Type 0}
    (launchd : Result E (List LaunchdService)) where
  raised :
      (r : Registry)
      → All
          (DownRaises quote)
          (collect_services probes (launchd_or_nothing launchd) sys.parent_domain r)
  unfolding collect_services
  raised r =
      All-sort_by (DownRaises quote) (λ s. s.name) _
        (statuses-DownRaises quote probes (by_name_from (launchd_or_nothing launchd) [])
          sys.parent_domain r.services)

  told :
      (j : Journal) (log : EventLog) (r : Registry)
      → let services = collect_services probes (launchd_or_nothing launchd) sys.parent_domain r in
        Tells quote services (overview_of sys probes quote registry launchd j log services)
  told j log r =
      let services = collect_services probes (launchd_or_nothing launchd) sys.parent_domain r in
      (
        count_service_states-total services,
        overall_state-worst (derive_incidents quote services),
        All-IsReported quote services (raised r),
        calm_healthy quote probes (launchd_or_nothing launchd) sys.parent_domain r,
      )

  -- The overview of a registry that loads is a page, of as many services as the registry has: each is
  -- counted once; the state of the whole is that of the worst incident, and "healthy" if there is none;
  -- every service that is down is named by an incident; and if all services are in order or switched
  -- off, the whole is healthy. A registry that does not load is an error.
  pub handle_overview_lem :
      (j : Journal) (log : EventLog)
      → ((r : Registry) × (services : List ServiceStatus) × (o : OverviewResponse) × (load_registry
              sys registry
            ≡ ok r)
          × (length services ≡ length r.services)
          × (handle_overview sys probes quote registry launchd j log ≡ page o)
          × Tells quote services o)
        ⊎ ((e : LoadError) × (load_registry sys registry ≡ err e)
            × (handle_overview sys probes quote registry launchd j log
                ≡ refusal 500 [] "failed to collect services"))
  unfolding handle_overview collected
  handle_overview_lem j log = elim (Outcome-cases (load_registry sys registry)) [
    | inr (e, failed) ↦ inr (e, failed, rw (failed, collected, handle_overview) refl)
    | inl (r, loaded) ↦ inl (
      r,
      collect_services probes (launchd_or_nothing launchd) sys.parent_domain r,
      overview_of sys probes quote registry launchd j log
          (collect_services probes (launchd_or_nothing launchd) sys.parent_domain r),
      loaded,
      length-collect_services probes (launchd_or_nothing launchd) sys.parent_domain r,
      rw (loaded, collected, handle_overview) refl,
      told j log r,
    )
  ]
