-- ===== src/Health/Status.antt =====
-- main.go, `collectServices` and `deriveOverall`, with its types: the state of each service.
use home_stack.Prelude.{
  ℕ, zero, suc, ◌+◌, Bool, true, false, ◌&&◌, ◌||◌, not, List, [], ◌∷◌, Option, none, some, String,
  ◌==◌, Map, lookup, insert, if◌then◌else◌, sort_by,
}
use home_stack.Registry.{Service, Registry, is_enabled, routable_host}
use home_stack.Actions.{ActionDescriptor, actions_for_service}

pub record LaunchdService : Type 0 where
  pub name : String
  pub scope : String
  pub domain : String
  pub label : String
  pub state : String
  pub pid : String
  pub last_exit_code : String
  pub program : String
  pub path : String
  pub stdout : String
  pub stderr : String

pub record LaunchdStatus : Type 0 where
  pub state : String
  pub pid : String
  pub last_exit_code : String
  pub program : String
  pub stdout : String
  pub stderr : String

-- The field `OK` is `passed`.
pub record CheckStatus : Type 0 where
  pub passed : Bool
  pub state : String
  pub target : String
  pub details : String

pub record ServiceStatus : Type 0 where
  pub name : String
  pub display_name : String
  pub kind : String
  pub overall_state : String
  pub desired : Option Service
  pub launchd : Option LaunchdStatus
  pub port : Option CheckStatus
  pub route : Option CheckStatus
  pub http : Option CheckStatus
  pub actions : List ActionDescriptor
  pub details : String

-- The launchd part of `deriveOverall`: whether the service is down, or else the value of `warn`.
pub data Verdict : Type 0 where
  down : Verdict
  warns : Bool → Verdict

unfoldable pub launchd_verdict : String → Option LaunchdStatus → Verdict
launchd_verdict kind none = warns false
launchd_verdict kind (some l) =
    if l.state == "running" || (l.state == "not running" && kind == "scheduled")
    then warns false
    else if l.state == "not loaded"
    then down
    else warns true

-- The loop over the three checks stops at the first that is there and failed.
abbrev pub failed : Option CheckStatus → Bool
failed none = false
failed (some c) = not c.passed

abbrev pub present {ℓ} : {A : Type ℓ} → Option A → ℕ
present none = 0
present (some a) = 1

unfoldable pub any_failed : List (Option CheckStatus) → Bool
any_failed [] = false
any_failed (c ∷ cs) = failed c || any_failed cs

-- The rest of `deriveOverall`: `warn` counts when something was looked at, and no check failed.
unfoldable pub settle : Verdict → Bool → ℕ → String
settle down check_failed seen = "down"
settle (warns warn) true seen = "down"
settle (warns warn) false zero = "unknown"
settle (warns warn) false (suc n) = if warn then "warn" else "ok"

unfoldable pub derive_overall : ServiceStatus → String
derive_overall s =
    settle (launchd_verdict s.kind s.launchd) (any_failed (s.port ∷ s.route ∷ s.http ∷ []))
      (present s.launchd + present s.port + present s.route + present s.http)

-- What `checkPort`, `checkRoute` and `checkHTTP` answer: the network decides.
pub record Probes : Type 0 where
  pub check_port : String → CheckStatus
  pub check_route : String → CheckStatus
  pub check_http : String → Bool → CheckStatus

abbrev to_status : LaunchdService → LaunchdStatus
to_status l = record {
  state = l.state;
  pid = l.pid;
  last_exit_code = l.last_exit_code;
  program = l.program;
  stdout = l.stdout;
  stderr = l.stderr;
}

abbrev pub launchd_of : Option LaunchdService → Option LaunchdStatus
launchd_of none = none
launchd_of (some l) = some (to_status l)

-- The entry without arguments and environment.
abbrev pub redacted : Service → Service
redacted svc = record svc { args = []; env = [] }

-- The status before anything is looked at on the network.
abbrev base_status : Map LaunchdService → String → Service → ServiceStatus
base_status by_name name svc = record {
  name = name;
  display_name = svc.display_name;
  kind = svc.kind;
  overall_state = "";
  desired = some (redacted svc);
  launchd = launchd_of (lookup name by_name);
  port = none;
  route = none;
  http = none;
  actions = [];
  details = "";
}

-- The status after the three checks.
abbrev pub probed_status : Probes → Map LaunchdService → String → String → Service → ServiceStatus
probed_status probes by_name parent_domain name svc =
    let host = routable_host svc parent_domain in
    record (base_status by_name name svc) {
      port = if not (svc.upstream == "") then some (probes.check_port svc.upstream) else none;
      route = if not (host == "") then some (probes.check_route host) else none;
      http =
          if not (svc.health.http_url == "")
          then some (probes.check_http svc.health.http_url (name == "admin"))
          else none;
    }

-- The body of `collectServices`'s loop.
unfoldable pub service_status :
    Probes → Map LaunchdService → String → String → Service → ServiceStatus
unfolding is_enabled
service_status probes by_name parent_domain name svc =
    let probed = probed_status probes by_name parent_domain name svc in
    if not (is_enabled svc)
    then record (base_status by_name name svc) {
      overall_state = "disabled";
      actions = actions_for_service name svc;
    }
    else record probed {
      overall_state = derive_overall probed;
      actions = actions_for_service name svc;
    }

abbrev pub by_name_from : List LaunchdService → Map LaunchdService → Map LaunchdService
by_name_from [] found = found
by_name_from (l ∷ ls) found = by_name_from ls (insert l.name l found)

unfoldable pub statuses : Probes → Map LaunchdService → String → Map Service → List ServiceStatus
statuses probes by_name parent_domain [] = []
statuses probes by_name parent_domain ((name, svc) ∷ rest) =
    service_status probes by_name parent_domain name svc
    ∷ statuses probes by_name parent_domain rest

-- `collectServices`, once the registry is loaded.
unfoldable pub collect_services :
    Probes → List LaunchdService → String → Registry → List ServiceStatus
collect_services probes launchd parent_domain registry =
    sort_by (λ s. s.name)
      (statuses probes (by_name_from launchd []) parent_domain registry.services)
