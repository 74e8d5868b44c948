-- ===== src/Health/Alerts.antt =====
-- incidents.go, and `incident` of models.go: the incidents, the state of the stack, and the counts.
use home_stack.Prelude.{
  ℕ, ◌+◌, Bool, false, ◌&&◌, ◌||◌, not, List, [], ◌∷◌, Option, none, some, String, ◌==◌, ◌<>◌,
  if◌then◌else◌,
}
use home_stack.Health.Status.{ServiceStatus, LaunchdStatus, CheckStatus}

pub record Incident : Type 0 where
  pub id : String
  pub severity : String
  pub service : String
  pub title : String
  pub explanation : String
  pub confidence : String
  pub recommended_actions : List String

unfoldable pub is_optional_service : ServiceStatus → Bool
is_optional_service s = elim s.desired [
  | none ↦ false
  | some d ↦
      d.type == "task" || d.kind == "scheduled" || d.kind == "testing" || s.name == "dev-gateway"
]

abbrev pub label_of : ServiceStatus → String
label_of s = if s.display_name == "" then s.name else s.display_name

-- The running launchd job of a disabled service, and a job that is known not to run.
abbrev pub still_loaded : Option LaunchdStatus → Bool
still_loaded none = false
still_loaded (some l) = l.state == "running"

abbrev pub not_running : Option LaunchdStatus → Option String
not_running none = none
not_running (some l) =
    if not (l.state == "") && not (l.state == "running") then some l.state else none

abbrev pub failing : Option CheckStatus → Option CheckStatus
failing none = none
failing (some c) = if c.passed then none else some c

-- The body of `deriveIncidents`'s loop, which adds one incident at most. `quote` is fmt's `%q`.
module _ (quote : String → String) where
  unfoldable pub incident_of : ServiceStatus → Option Incident
  incident_of s =
      let severity_of : String → String =
        λ usual. if is_optional_service s then "info" else usual in
      let disabled_loaded : Incident = record {
        id = s.name <> "-disabled-loaded";
        severity = "info";
        service = s.name;
        title = label_of s <> " is disabled but still loaded";
        explanation = "run install-launchd.sh to prune its stale plist";
        confidence = "high";
        recommended_actions = "service.stop" ∷ [];
      } in
      let launchd_incident : String → Incident = λ state. record {
        id = s.name <> "-launchd";
        severity = severity_of "critical";
        service = s.name;
        title = label_of s <> " is not running";
        explanation = "launchd reports state " <> quote state;
        confidence = "high";
        recommended_actions = "service.restart" ∷ "doctor.open" ∷ [];
      } in
      let port_incident : CheckStatus → Incident = λ c. record {
        id = s.name <> "-port";
        severity = severity_of "critical";
        service = s.name;
        title = label_of s <> " port is closed";
        explanation = "port check failed for " <> c.target;
        confidence = "high";
        recommended_actions = "service.restart" ∷ "events.open" ∷ [];
      } in
      let route_incident : Incident = record {
        id = s.name <> "-route";
        severity = severity_of "warning";
        service = s.name;
        title = label_of s <> " route is missing";
        explanation = "Caddy runtime config does not show the expected route";
        confidence = "medium";
        recommended_actions = "caddy.validate" ∷ "caddy.reload" ∷ [];
      } in
      let http_incident : CheckStatus → Incident = λ c. record {
        id = s.name <> "-http";
        severity = severity_of "warning";
        service = s.name;
        title = label_of s <> " HTTP probe is failing";
        explanation = c.details;
        confidence = "medium";
        recommended_actions = "service.restart" ∷ "events.open" ∷ [];
      } in
      if s.overall_state == "disabled"
      then (if still_loaded s.launchd then some disabled_loaded else none)
      else elim (not_running s.launchd) [
        | some state ↦ some (launchd_incident state)
        | none ↦ elim (failing s.port) [
          | some c ↦ some (port_incident c)
          | none ↦ elim (failing s.route) [
            | some c ↦ some route_incident
            | none ↦ elim (failing s.http) [ some c ↦ some (http_incident c) | none ↦ none ]
          ]
        ]
      ]

  unfoldable pub derive_incidents : List ServiceStatus → List Incident
  derive_incidents [] = []
  derive_incidents (s ∷ rest) = elim (incident_of s) [
    | none ↦ derive_incidents rest
    | some i ↦ i ∷ derive_incidents rest
  ]

-- The loop of `overallStateFromIncidents`, over the rest of the incidents and `state`.
unfoldable pub overall_from : String → List Incident → String
overall_from state [] = state
overall_from state (i ∷ rest) =
    let later = overall_from (if i.severity == "warning" then "degraded" else state) rest in
    if i.severity == "critical" then "down" else later

unfoldable pub overall_state_from_incidents : List Incident → String
unfolding overall_from
overall_state_from_incidents incidents = overall_from "healthy" incidents

-- The map of counts, which has these five keys.
pub record Counts : Type 0 where
  pub healthy : ℕ
  pub degraded : ℕ
  pub down : ℕ
  pub unknown : ℕ
  pub disabled : ℕ

abbrev pub count_state : Counts → String → Counts
count_state c state =
    if state == "healthy" || state == "ok"
    then record c { healthy = c.healthy + 1 }
    else if state == "degraded" || state == "warn"
    then record c { degraded = c.degraded + 1 }
    else if state == "down"
    then record c { down = c.down + 1 }
    else if state == "disabled"
    then record c { disabled = c.disabled + 1 }
    else record c { unknown = c.unknown + 1 }

unfoldable pub count_from : Counts → List ServiceStatus → Counts
count_from c [] = c
count_from c (s ∷ rest) = count_from (count_state c s.overall_state) rest

unfoldable pub count_service_states : List ServiceStatus → Counts
unfolding count_from
count_service_states services =
    count_from (record { healthy = 0; degraded = 0; down = 0; unknown = 0; disabled = 0 }) services
