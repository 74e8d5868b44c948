-- ===== src/Pages.antt =====
-- portable/home-stack/admin/main.go and portal.go: the handlers that only read, from the registry, from
-- launchd, from the network, from the audit log and from the files of the program.
pub mod Overview
use home_stack.Prelude.{
  ℕ, Bool, true, false, not, List, [], ◌∷◌, Option, none, some, String, ◌==◌, ◌<>◌, Map, lookup,
  trim_prefix, if◌then◌else◌, Result, ok, err,
}
use home_stack.Registry.{Service, Registry}
use home_stack.Http.{Request, Server, Reply, refusal, page}
use home_stack.Edits.{File, missing, unreadable, holds, System, LoadError, load_registry}
use home_stack.Events.{AdminEvent, Journal, EventLog, EventError, read_events}
use home_stack.Health.{
  LaunchdService, Probes, ServiceStatus, Incident, Counts, collect_services, derive_incidents,
  overall_state_from_incidents, count_service_states,
}
use home_stack.Health.Network.{FetchError}
use home_stack.Portal.{
  PortalCatalogService, PortalStatus, is_portal_origin, build_portal_catalog, build_portal_status,
}

-- `overviewResponse`, without its time and its two constant fields.
pub record OverviewResponse : Type 0 where
  pub overall_state : String
  pub service_counts : Counts
  pub top_incidents : List Incident
  pub recent_events : List AdminEvent

-- The launchd services, or none where the error is dropped.
abbrev pub launchd_or_nothing {ℓ} :
    {E : Type ℓ} → Result E (List LaunchdService) → List LaunchdService
launchd_or_nothing (ok services) = services
launchd_or_nothing (err e) = []

abbrev pub events_or_nothing : Result EventError (List AdminEvent) → List AdminEvent
events_or_nothing (ok events) = events
events_or_nothing (err e) = []

-- `sys` is the YAML parser and the parent domain, `registry` the file of the active profile,
-- `launchd` what `launchdServices` answers, and `quote` fmt's `%q`.
module _ (sys : System) (probes : Probes) (quote : String → String) (registry : File) {E : Type 0}
    (launchd : Result E (List LaunchdService)) where
  -- `collectServices`.
  unfoldable pub collected : Result LoadError (List ServiceStatus)
  collected = elim (load_registry sys registry) [
    | err e ↦ err e
    | ok r ↦ ok (collect_services probes (launchd_or_nothing launchd) sys.parent_domain r)
  ]

  abbrev pub overview_of : Journal → EventLog → List ServiceStatus → OverviewResponse
  overview_of j log services = record {
    overall_state = overall_state_from_incidents (derive_incidents quote services);
    service_counts = count_service_states services;
    top_incidents = derive_incidents quote services;
    recent_events = events_or_nothing (read_events j 10 log);
  }

  unfoldable pub handle_overview : Journal → EventLog → Reply OverviewResponse
  handle_overview j log = elim collected [
    | err e ↦ refusal 500 [] "failed to collect services"
    | ok services ↦ page (overview_of j log services)
  ]

  unfoldable pub handle_incidents : Reply (List Incident)
  handle_incidents = elim collected [
    | err e ↦ refusal 500 [] "failed to collect incidents"
    | ok services ↦ page (derive_incidents quote services)
  ]

  unfoldable pub handle_services : Reply (List ServiceStatus)
  handle_services = elim collected [
    | err e ↦ refusal 500 [] "failed to load services"
    | ok services ↦ page services
  ]

  -- `writePortalError`.
  abbrev portal_error {ℓ} : {A : Type ℓ} → ℕ → String → Reply A
  portal_error status message = refusal status (("Cache-Control", "private, no-store") ∷ []) message

  -- net/http's `NotFound`.
  abbrev not_found {ℓ} : {A : Type ℓ} → Reply A
  not_found = refusal 404 [] "404 page not found"

  unfoldable pub handle_portal_status : Server → Request → Reply PortalStatus
  handle_portal_status s r = if not (is_portal_origin s r) then not_found else elim collected [
    | err e ↦ portal_error 503 "status unavailable"
    | ok services ↦ page (build_portal_status services)
  ]

  -- `handlePortalCatalog`, with encoding/json's parser; `catalog` is the file catalog.json, and
  -- `stat` whether its time can be read.
  unfoldable pub handle_portal_catalog :
      (String → Option (Map Service))
      → File
      → Bool
      → Server
      → Request
      → Reply (List PortalCatalogService)
  handle_portal_catalog unmarshal catalog stat s r =
      if not (is_portal_origin s r) then not_found else elim catalog [
        | missing ↦ portal_error 503 "catalog unavailable"
        | unreadable ↦ portal_error 503 "catalog unavailable"
        | holds data_ ↦ elim (unmarshal data_) [
          | none ↦ portal_error 503 "catalog unavailable"
          | some generated ↦
              if stat
              then page (build_portal_catalog generated s.parent_domain)
              else portal_error 503 "catalog unavailable"
        ]
      ]

-- The status page: whether Caddy's API is reachable, and the message.
unfoldable pub handle_status : {A : Type 0} → Result FetchError A → Bool × String
handle_status (ok config) = (true, "caddy admin reachable")
handle_status (err e) = (false, "caddy admin unreachable")

abbrev assets : Map String
assets =
    ("/assets/app.js", "text/javascript; charset=utf-8")
    ∷ ("/assets/app.css", "text/css; charset=utf-8")
    ∷ []

-- `handleAsset`: the type of the content and the content. `templates` are the embedded files.
unfoldable pub handle_asset : (String → Option String) → Request → Reply (String × String)
handle_asset templates r = elim (lookup r.path assets) [
  | none ↦ refusal 404 [] "404 page not found"
  | some content_type ↦ elim (templates ("templates/" <> trim_prefix r.path "/assets/")) [
    | none ↦ refusal 500 [] "asset unavailable"
    | some data_ ↦ page (content_type, data_)
  ]
]
