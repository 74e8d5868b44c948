-- ===== src/Tests/Looked.antt =====
-- The theorems on the checks of services and on the cache, for a house whose wiki is up.
use home_stack.Prelude.{
  ℕ, ◌+◌, ◌-◌, ◌<◌, arith, Bool, true, false, ◌||◌, ◌≡◌, ◌≢◌, refl, List, [], ◌∷◌, Option, none,
  some, String, ◌==◌, ◌<>◌, if◌then◌else◌, Result, ok, err, length, ◌⊎◌,
}
use home_stack.Registry.{Registry, Service, is_enabled, routable_host}
use home_stack.Http.{page, refusal}
use home_stack.Edits.{System, LoadError, holds, missing, load_registry}
use home_stack.Events.{lines}
use home_stack.Pages.{OverviewResponse, handle_overview}
use home_stack.Pages.Overview.{Tells, handle_overview_lem}
use home_stack.Health.{LaunchdService, Probes, ServiceStatus, service_status}
use home_stack.Health.Routes.{Json, string, array, value, no_values}
use home_stack.Health.Network.{Network, Fetched, answered, no_answer, probes}
use home_stack.Health.Sound.{IsOpen, Answers, IsRouted, IsRunning, ok_sound}
use home_stack.Inspect.Cache.{
  Query, launchd_services, cache_after, IsFresh, launchd_services-IsFresh,
}
use home_stack.Tests.{blank}
use home_stack.Tests.Executed.{server, journal}

abbrev wiki : Service
wiki = record blank {
  subdomain = "wiki";
  upstream = "127.0.0.1:8090";
  health = record blank.health { http_url = "http://127.0.0.1:8090/" };
}

abbrev up : Network
up = record {
  dial = λ target. none;
  fetch = λ url login.
      if url == "http://localhost:2019/config/" || url == "http://127.0.0.1:8090/"
      then answered 200 "200 OK" "[\"wiki.home.example.com\"]" false
      else no_answer "connection refused";
  decimal = λ code. "200";
  limited = λ body. none;
}

abbrev unmarshal : String → Option Json
unmarshal text = some (array (value (string "wiki.home.example.com") no_values))

abbrev contains : String → String → Bool
contains text part = false

wiki-ok :
    (service_status
      (probes up unmarshal contains server "http://localhost:2019")
      []
      "home.example.com"
      "wiki"
      wiki).overall_state
    ≡ "ok"
unfolding service_status home_stack.Health.derive_overall home_stack.Health.settle
    home_stack.Health.launchd_verdict home_stack.Prelude.lookup home_stack.Health.any_failed probes
    home_stack.Health.Network.check_port routable_host home_stack.Registry.resolved_host
    home_stack.Prelude.has_prefix home_stack.Health.Routes.check_route
    home_stack.Health.Network.get_caddy_config home_stack.Health.Routes.find_host
    home_stack.Prelude.equal_fold home_stack.Health.Network.check_http
wiki-ok = refl

ok_sound_example :
    (is_enabled wiki ≡ true)
    × IsRunning up unmarshal contains server "http://localhost:2019" wiki.kind none
    × (wiki.upstream ≢ ""
        → IsOpen up unmarshal contains server "http://localhost:2019" wiki.upstream)
    × (routable_host wiki "home.example.com" ≢ ""
        → IsRouted up unmarshal contains server "http://localhost:2019"
            (routable_host wiki "home.example.com"))
    × (wiki.health.http_url ≢ ""
        → Answers up unmarshal contains server "http://localhost:2019" "wiki" wiki.health.http_url)
unfolding home_stack.Prelude.lookup
ok_sound_example =
    ok_sound up unmarshal contains server "http://localhost:2019" [] "home.example.com" "wiki" wiki
      wiki-ok

abbrev notes_agent : LaunchdService
notes_agent = record {
  name = "notes";
  scope = "user";
  domain = "gui/501";
  label = "com.example.home-stack.notes";
  state = "running";
  pid = "1";
  last_exit_code = "0";
  program = "";
  path = "";
  stdout = "";
  stderr = "";
}

abbrev first : Query String
first = record { asked = 100; done = 200; collected = ok (notes_agent ∷ []) }

abbrev second : Query String
second = record { asked = 300; done = 400; collected = err "launchctl" }

launchd_services-IsFresh_example :
    IsFresh second (first ∷ []) (launchd_services second (cache_after (first ∷ []))).0
launchd_services-IsFresh_example = launchd_services-IsFresh second (first ∷ [])

from_cache : (launchd_services second (cache_after (first ∷ []))).0 ≡ ok (notes_agent ∷ [])
unfolding launchd_services cache_after
from_cache = refl

abbrev system : System
system = record {
  marshal = λ r. none;
  unmarshal = λ text. some (record { services = ("wiki", wiki) ∷ [] });
  parent_domain = "home.example.com";
  can_write = true;
  partial = missing;
  can_rename = true;
  can_remove = true;
}

abbrev in_quotes : String → String
in_quotes s = "\"" <> s <> "\""

abbrev asked : Result String (List LaunchdService)
asked = ok (notes_agent ∷ [])

abbrev watched : Probes
watched = probes up unmarshal contains server "http://localhost:2019"

handle_overview_lem_example :
    ((r : Registry) × (services : List ServiceStatus) × (o : OverviewResponse) × (load_registry
          system
          (holds "services: wiki")
        ≡ ok r)
      × (length services ≡ length r.services)
      × (handle_overview system watched in_quotes
            (holds "services: wiki")
            asked
            journal
            (lines [] "")
          ≡ page o)
      × Tells in_quotes services o)
    ⊎ ((e : LoadError) × (load_registry system (holds "services: wiki") ≡ err e)
        × (handle_overview system watched in_quotes
              (holds "services: wiki")
              asked
              journal
              (lines [] "")
            ≡ refusal 500 [] "failed to collect services"))
handle_overview_lem_example =
    handle_overview_lem system watched in_quotes (holds "services: wiki") asked journal
      (lines [] "")
