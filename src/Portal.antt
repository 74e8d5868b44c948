-- ===== src/Portal.antt =====
-- portable/home-stack/admin/portal.go: the two projections that the portal reads. Times are left out.
pub mod Aggregate
pub mod Catalog
use home_stack.Prelude.{
  Bool, true, false, ◌&&◌, ◌||◌, not, List, [], ◌∷◌, Option, none, some, String, ◌==◌, ◌<>◌, Map,
  insert, if◌then◌else◌, sort_by, equal_fold, is_some,
}
use home_stack.Registry.{Service, routable_url}
use home_stack.Http.{Request, Server}
use home_stack.Health.{ServiceStatus, CheckStatus}

pub record PortalCatalogService : Type 0 where
  pub id : String
  pub display_name : String
  pub kind : String
  pub url : Option String
  pub scope : String
  pub lifecycle : String
  pub launchable : Bool

pub record PortalHealthSignals : Type 0 where
  pub process : String
  pub network : String
  pub route : String
  pub http : String

pub record PortalServiceStatus : Type 0 where
  pub state : String
  pub signals : PortalHealthSignals

pub record PortalStatus : Type 0 where
  pub overall_state : String
  pub services : Map PortalServiceStatus

unfoldable pub is_portal_origin : Server → Request → Bool
is_portal_origin s r = equal_fold r.host ("portal." <> s.parent_domain)

unfoldable pub project_catalog_service : String → Service → String → PortalCatalogService
project_catalog_service id service parent_domain =
    let base = routable_url service parent_domain in
    let launch_url : Option String = if not (base == "") then some (base <> "/") else none in
    record {
      id = id;
      display_name = if service.display_name == "" then id else service.display_name;
      kind = if service.kind == "" then "service" else service.kind;
      url = launch_url;
      scope =
          if not (service.subdomain == "")
          then "tailnet"
          else if not (service.host == "")
          then "external"
          else "local";
      lifecycle =
          if service.type == "static"
          then "static"
          else if service.type == "system"
          then "system"
          else if service.lifecycle == "managed"
          then "managed"
          else "external";
      launchable = is_some launch_url;
    }

unfoldable pub project_services : Map Service → String → List PortalCatalogService
project_services [] parent_domain = []
project_services ((id, service) ∷ rest) parent_domain =
    project_catalog_service id service parent_domain ∷ project_services rest parent_domain

-- The services of `buildPortalCatalog`, from the entries of the generated catalog.
unfoldable pub build_portal_catalog : Map Service → String → List PortalCatalogService
build_portal_catalog generated parent_domain =
    sort_by (λ s. s.id) (project_services generated parent_domain)

unfoldable pub portal_state : String → String
portal_state state =
    if state == "ok" || state == "healthy"
    then "healthy"
    else if state == "warn" || state == "degraded"
    then "degraded"
    else if state == "down" || state == "unavailable"
    then "unavailable"
    else "unknown"

-- The loop of `aggregatePortalState`, with its two flags `allUnknown` and `degraded`.
unfoldable pub aggregate_from : Bool → Bool → List String → String
aggregate_from all_unknown degraded [] =
    if all_unknown then "unknown" else if degraded then "degraded" else "healthy"
aggregate_from all_unknown degraded (state ∷ rest) =
    let later_degraded = aggregate_from false true rest in
    let later_unknown = aggregate_from all_unknown true rest in
    let later = aggregate_from false degraded rest in
    if state == "unavailable"
    then "unavailable"
    else if state == "degraded"
    then later_degraded
    else if state == "unknown"
    then later_unknown
    else later

unfoldable pub aggregate_portal_state : List String → String
unfolding aggregate_from
aggregate_portal_state [] = "unknown"
aggregate_portal_state (state ∷ rest) = aggregate_from true false (state ∷ rest)

unfoldable pub portal_process_signal : ServiceStatus → String
portal_process_signal service = elim service.launchd [
  | none ↦ "not_managed"
  | some l ↦
      if service.kind == "scheduled" && not (l.state == "running")
      then "scheduled"
      else if l.state == "running"
      then "running"
      else if l.state == "not running"
          || l.state == "not loaded"
          || l.state == "stopped"
          || l.state == "exited"
      then "stopped"
      else "unknown"
]

unfoldable pub portal_check_signal : Option CheckStatus → String → String → String → String
portal_check_signal none healthy unhealthy absent = absent
portal_check_signal (some check) healthy unhealthy absent =
    if check.passed then healthy else unhealthy

abbrev project_status : ServiceStatus → PortalServiceStatus
project_status service = record {
  state = portal_state service.overall_state;
  signals = record {
    process = portal_process_signal service;
    network = portal_check_signal service.port "reachable" "unreachable" "not_checked";
    route = portal_check_signal service.route "ready" "missing" "not_applicable";
    http = portal_check_signal service.http "healthy" "unhealthy" "not_checked";
  };
}

-- The states that count, and the entries, of the loop of `buildPortalStatus`.
unfoldable pub counted_states : List ServiceStatus → List String
counted_states [] = []
counted_states (service ∷ rest) =
    let later = counted_states rest in
    if not (service.overall_state == "disabled")
    then portal_state service.overall_state ∷ later
    else later

unfoldable pub projected_from :
    Map PortalServiceStatus → List ServiceStatus → Map PortalServiceStatus
projected_from projected [] = projected
projected_from projected (service ∷ rest) =
    projected_from (insert service.name (project_status service) projected) rest

unfoldable pub build_portal_status : List ServiceStatus → PortalStatus
build_portal_status services = record {
  overall_state = aggregate_portal_state (counted_states services);
  services = projected_from [] services;
}
