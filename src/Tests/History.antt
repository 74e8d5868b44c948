-- ===== src/Tests/History.antt =====
-- The theorems on histories, for a service that is added and a sync after it.
use home_stack.Prelude.{ℕ, ◌≡◌, refl, ◌∷◌, [], Option, some, String, true}
use home_stack.Registry.{Service}
use home_stack.Actions.{ActionRequest}
use home_stack.Edits.{System, holds, load_registry}
use home_stack.Edits.Atomic.{Loads}
use home_stack.Execute.{State, ActionResult, execute_action, sync, system}
use home_stack.Handlers.{actor_of, executed, handle_action}
use home_stack.Handlers.History.{Setting, here, next, handled, synced}
use home_stack.Handlers.History.Kept.{registry-Loads}
use home_stack.Handlers.History.Logged.{IsLogged, success-IsLogged}
use home_stack.Tests.{blank}
use home_stack.Tests.Bundle.{host, disk, profile}
use home_stack.Tests.Executed.{
  count_run, journal, request, start, to_json, addition, server, post, login, reload,
}

abbrev more : Service
more = record blank { subdomain = "more"; upstream = "127.0.0.1:8091" }

abbrev adding : Setting ℕ
adding = record {
  run = count_run;
  bundle_dir = "/opt/home-stack";
  host = record host { sys = record host.sys { marshal = λ r. some "services: more" } };
  disk = disk;
  journal = journal;
  to_json = to_json;
  basic_auth = login;
  decode = λ r. some (record addition { service = more });
}

abbrev reloading : Setting ℕ
reloading = record adding { decode = reload }

abbrev at_start : System
at_start = system count_run "/opt/home-stack" host disk journal to_json

abbrev added : State ℕ
added =
    (handle_action count_run "/opt/home-stack" adding.host disk journal to_json login adding.decode
      server "1" post start).1

abbrev then_synced : State ℕ
then_synced = (sync count_run "/opt/home-stack" adding.host disk journal to_json added).1

start-Loads : Loads at_start start.profile.registry
unfolding load_registry home_stack.Edits.check_loaded home_stack.Tests.Bundle.getenv
    home_stack.Prelude.lookup home_stack.Validate.validate home_stack.Validate.check_services
    home_stack.Validate.Checks.check_service home_stack.Validate.Tokens.validate_display_token
    home_stack.Validate.check_broker_enabled
start-Loads = (profile, refl)

registry-Loads_example : Loads at_start then_synced.profile.registry
registry-Loads_example = registry-Loads at_start start then_synced start-Loads (
    next (next here (handled adding (refl, refl) server "1" post start))
      (synced adding (refl, refl) added))

abbrev reloaded : State ℕ
reloaded =
    (handle_action count_run "/opt/home-stack" adding.host disk journal to_json login reload server
      "1" post start).1

abbrev result : ActionResult
result =
    (execute_action count_run "/opt/home-stack" adding.host disk journal to_json "owner" "1"
      (request "caddy.reload" "caddy" true) start).0

reload-answered :
    (handle_action count_run "/opt/home-stack" adding.host disk journal to_json login reload server
      "1" post start).0
    ≡ executed 200 result
unfolding handle_action home_stack.Handlers.handle_request
    home_stack.Actions.validate_action_request home_stack.Actions.action_by_id
    home_stack.Actions.target_allowed execute_action home_stack.Execute.audit
    home_stack.Events.append_event home_stack.Execute.perform home_stack.Execute.result_of
reload-answered = refl

abbrev later : State ℕ
later =
    (handle_action count_run "/opt/home-stack" adding.host disk journal to_json login adding.decode
      server "2" post reloaded).1

success-IsLogged_example :
    (req : ActionRequest) × (reload post ≡ some req)
    × IsLogged journal
        (actor_of count_run "/opt/home-stack" adding.host disk journal to_json login reload server
          post)
        req
        ""
        later.log
success-IsLogged_example =
    success-IsLogged reloading at_start server "1" post start result later reload-answered
      (next here (handled adding (refl, refl) server "2" post reloaded))
