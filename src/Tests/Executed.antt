-- ===== src/Tests/Executed.antt =====
-- The theorems on the audit log and on the execution of actions, with commands that are only counted.
use home_stack.Prelude.{Map, ◌⊎◌, inl, inr, false, contains, ◌==◌, if◌then◌else◌}
use home_stack.Prelude.{
  ℕ, ◌+◌, ◌≤◌, Bool, true, false, ◌≡◌, refl, List, [], ◌∷◌, Option, none, some, String, codes,
  length, ok,
}
use home_stack.Actions.{ActionRequest, RunError, validate_action_request}
use home_stack.Edits.{missing, holds, add_service, remove_service}
use home_stack.Deploy.{DeployDiff}
use home_stack.Events.{
  AdminEvent, EventLog, lines, Journal, redacted, append_event, read_events, take,
}
use home_stack.Events.Redact.{redact_output}
use home_stack.Events.Redact.Hidden.{IsTold, redact_output-hides}
use home_stack.Events.Redact.Bounds.{length-redact_output}
use home_stack.Events.Log.{read_events-append_event}
use home_stack.Execute.{State, active_registry, perform, execute_action, system, sync}
use home_stack.Execute.Audit.{ok_audited}
use home_stack.Execute.Effects.{registry_actions_target}
use home_stack.Http.{Request, Server}
use home_stack.Actions.Requests.{IsPermitted}
use home_stack.Handlers.{handle_action}
use home_stack.Handlers.Actor.{IsActor, attributed_action}
use home_stack.Gateway.{GatewayEntry}
use home_stack.Tests.{blank, house}
use home_stack.Tests.Bundle.{host, disk, bundle, getenv}

abbrev pub count_run : List String → ℕ → (String × Option RunError) × ℕ
count_run args n = (("", none), n + 1)

abbrev reload_done : AdminEvent
reload_done = record {
  id = "evt_1";
  actor = "owner";
  action = "caddy.reload";
  target = "caddy";
  risk = "caution";
  ok = true;
  message = "Reload Caddy completed";
  details = "";
}

abbrev pub journal : Journal
journal = record {
  getenv = getenv;
  marshal = λ evt. some "{}";
  unmarshal = λ text. some (record reload_done { details = redact_output getenv "" });
  can_open = true;
  can_append = true;
  torn = λ text. "{";
  too_long = λ text. false;
}

length-redact_output_example : length (codes (redact_output getenv "token=abc")) ≤ 801
length-redact_output_example = length-redact_output getenv "token=abc"

abbrev with_password : String → String
with_password name = if name == "HOME_STACK_ADMIN_PASSWORD" then "hunter2" else ""

hunter2-IsTold : IsTold "hunter2"
unfolding home_stack.Prelude.contains_any contains
hunter2-IsTold = ((refl, refl, refl), refl)

redact_output-hides_example :
    contains
      (redact_output with_password "tried hunter2")
      (with_password "HOME_STACK_ADMIN_PASSWORD")
    ≡ false
redact_output-hides_example =
    redact_output-hides with_password "tried hunter2" "HOME_STACK_ADMIN_PASSWORD" (inl refl)
      hunter2-IsTold

appended : append_event journal reload_done (lines [] "") ≡ (ok tt, lines ("{}" ∷ []) "")
unfolding append_event
appended = refl

read_empty : read_events journal 0 (lines [] "") ≡ ok []
unfolding read_events home_stack.Events.scan home_stack.Events.reverse
read_empty = refl

read_events-append_event_example :
    read_events journal 10 (lines ("{}" ∷ []) "")
    ≡ ok (redacted journal (redacted journal reload_done) ∷ take 9 [])
read_events-append_event_example =
    read_events-append_event journal reload_done (lines [] "") (lines ("{}" ∷ []) "") 9 []
      (λ text written. (refl, refl)) refl appended read_empty

abbrev pub request : String → String → Bool → ActionRequest
request action target confirm = record {
  action = action;
  target = target;
  confirm = confirm;
  service = blank;
}

abbrev pub start : State ℕ
start = record {
  world = 0;
  bundle = bundle;
  profile = record { registry = holds "services: wiki"; temp = missing };
  log = lines [] "";
}

abbrev pub to_json : DeployDiff → String
to_json d = "{}"

reload-good :
    (execute_action count_run "/opt/home-stack" host disk journal to_json "owner" "1"
      (request "caddy.reload" "caddy" true)
      start).0.ok
    ≡ true
unfolding execute_action perform home_stack.Execute.result_of home_stack.Execute.audit append_event
reload-good = refl

ok_audited_example :
    ((perform count_run "/opt/home-stack" host disk journal to_json
        (request "caddy.reload" "caddy" true)
        start).0.1
      ≡ none)
    × ((evt : AdminEvent) × (append_event journal evt
            (perform count_run "/opt/home-stack" host disk journal to_json
              (request "caddy.reload" "caddy" true)
              start).1.log
          ≡ (
            ok tt,
            (execute_action count_run "/opt/home-stack" host disk journal to_json "owner" "1"
                (request "caddy.reload" "caddy" true)
                start).1.log,
          ))
        × (evt.actor ≡ "owner")
        × (evt.action ≡ "caddy.reload")
        × (evt.target ≡ "caddy")
        × (evt.ok ≡ true))
ok_audited_example =
    ok_audited count_run "/opt/home-stack" host disk journal to_json "owner" "1"
      (request "caddy.reload" "caddy" true) start reload-good

abbrev pub addition : ActionRequest
addition = request "registry.add" "system" true

addition-permitted : validate_action_request (some house) addition ≡ ok tt
unfolding validate_action_request home_stack.Actions.action_by_id home_stack.Actions.target_allowed
addition-permitted = refl

registry_actions_target_example :
    (addition.action ≡ "registry.add"
      → (addition.target ≡ "system")
        × ((execute_action count_run "/opt/home-stack" host disk journal to_json "owner" "1"
              addition start).1.profile
            ≡ (add_service
                (system count_run "/opt/home-stack" host disk journal to_json)
                "system"
                blank
                start.profile).1))
    × (addition.action ≡ "registry.remove"
        → (addition.target ≡ "system")
          × ((execute_action count_run "/opt/home-stack" host disk journal to_json "owner" "1"
                addition start).1.profile
              ≡ (remove_service
                  (system count_run "/opt/home-stack" host disk journal to_json)
                  "system"
                  start.profile).1))
registry_actions_target_example =
    registry_actions_target count_run "/opt/home-stack" host disk journal to_json "owner" "1"
      (some house) addition start addition-permitted

abbrev pub server : Server
server = record {
  parent_domain = "home.example.com";
  admin_username = "owner";
  admin_password = "hunter2";
  proxy_auth_secret = "";
}

abbrev pub post : Request
post = record {
  method = "POST";
  host = "admin.home.example.com";
  path = "/api/actions";
  header = [];
}

abbrev pub login : Request → Option (String × String)
login r = some ("owner", "hunter2")

abbrev pub reload : Request → Option ActionRequest
reload r = some (request "caddy.reload" "caddy" true)

attributed_action_example :
    (((req : ActionRequest)
        → reload post ≡ some req
        → ¬ IsPermitted
            (active_registry count_run "/opt/home-stack" host disk journal to_json start)
            req)
      × ((handle_action count_run "/opt/home-stack" host disk journal to_json login reload server
            "1" post start).1
          ≡ start))
    ⊎ ((req : ActionRequest) × (actor : String) × (reload post ≡ some req)
        × IsPermitted
            (active_registry count_run "/opt/home-stack" host disk journal to_json start)
            req
        × IsActor count_run "/opt/home-stack" host disk journal to_json login reload server post
            actor
        × ((handle_action count_run "/opt/home-stack" host disk journal to_json login reload server
              "1" post start).1
            ≡ (execute_action count_run "/opt/home-stack" host disk journal to_json actor "1" req
                start).1))
attributed_action_example =
    attributed_action count_run "/opt/home-stack" host disk journal to_json login reload server "1"
      post start (inr ((λ e. absurd (cc e)), refl))

abbrev apps : Map GatewayEntry
apps =
    ("off", record { upstream = "127.0.0.1:1"; host = "app.dev.example.com"; enabled = some false })
    ∷ ("app", record { upstream = "127.0.0.1:2"; host = "*.dev.example.com"; enabled = none })
    ∷ []

abbrev parse : String → Option (String × String)
parse url = some ("http", url)
