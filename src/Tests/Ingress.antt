-- ===== src/Tests/Ingress.antt =====
-- The theorems on the server, the portal and the Caddyfile, in the small house.
use home_stack.Prelude.{
  ℕ, Bool, true, false, ◌≡◌, ◌≢◌, ◌↔◌, ◌⊎◌, inl, inr, refl, List, [], ◌∷◌, Option, none, some,
  String, ◌==◌, ◌<>◌, lookup, Map,
}
use home_stack.Registry.{
  Service, Registry, auth_identity_consumer, requires_auth_broker, resolved_host,
}
use home_stack.Validity.Tokens.{==-eq-false}
use home_stack.Http.{
  Request, Server, Reply, refusal, page, get, with_method, with_auth, with_mutation, Endpoint,
  action, status, portal_catalog_path, portal_status_path, routes,
}
use home_stack.Http.Guards.{IsAuthenticated, login_refusal, with_auth_cases}
use home_stack.Http.Access.{MayMutate, private_routes, actions_route}
use home_stack.Portal.{project_catalog_service}
use home_stack.Tests.{notes}

-- A request that claims a user without the secret of the ingress.
abbrev pretender : Request
pretender = record {
  method = "POST";
  host = "admin.home.example.com";
  path = "/api/actions";
  header = ("X-Webauth-User", "owner") ∷ [];
}

abbrev server : Server
server = record {
  parent_domain = "home.example.com";
  admin_username = "owner";
  admin_password = "correct horse";
  proxy_auth_secret = "from the ingress";
}

abbrev no_credentials : Request → Option (String × String)
no_credentials r = none

abbrev no_host : String → Option String
no_host url = none

abbrev answer : Endpoint → Request → Reply String
answer e r = page "done"

pretender-outside : IsAuthenticated no_credentials server pretender → ⊥
unfolding get lookup
pretender-outside (inl (_, shown, _)) = (==-eq-false "" "from the ingress").0 refl shown
pretender-outside (inr (_, given)) = cc

with_auth_cases_example :
    (IsAuthenticated no_credentials server pretender
      → with_auth no_credentials server (answer action) pretender ≡ answer action pretender)
    × ((IsAuthenticated no_credentials server pretender → ⊥)
        → with_auth no_credentials server (answer action) pretender ≡ login_refusal server)
with_auth_cases_example = with_auth_cases no_credentials server (answer action) pretender

abbrev status_handler : Request → Reply String
status_handler = with_auth no_credentials server (with_method "GET" (answer status))

status-routed :
    lookup "/api/status" (routes no_credentials no_host answer server) ≡ some status_handler
unfolding routes lookup
status-routed = refl

private_routes_example : status_handler pretender ≡ login_refusal server
private_routes_example =
    private_routes no_credentials no_host answer server pretender "/api/status" status_handler
      status-routed ((==-eq-false "/api/status" portal_catalog_path).0 refl)
      ((==-eq-false "/api/status" portal_status_path).0 refl) pretender-outside

abbrev action_handler : Request → Reply String
action_handler =
    with_auth no_credentials server (with_mutation no_host (with_method "POST" (answer action)))

action-routed :
    lookup "/api/actions" (routes no_credentials no_host answer server) ≡ some action_handler
unfolding routes lookup
action-routed = refl

actions_route_example :
    (MayMutate no_credentials no_host server pretender
      → action_handler pretender ≡ answer action pretender)
    × ((MayMutate no_credentials no_host server pretender → ⊥)
        → (status : ℕ) × (header : Map String) × (message : String) × (action_handler pretender
            ≡ refusal status header message))
actions_route_example =
    actions_route no_credentials no_host answer server pretender action_handler action-routed

abbrev in_quotes : String → String
in_quotes s = "\"" <> s <> "\""

notes-launchable : (project_catalog_service "notes" notes "home.example.com").launchable ≡ true
unfolding project_catalog_service home_stack.Registry.routable_url home_stack.Registry.routable_host
    resolved_host home_stack.Prelude.has_prefix home_stack.Registry.is_enabled
notes-launchable = refl
