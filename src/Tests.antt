-- ===== src/Tests.antt =====
-- A small house to try the theorems on: Admin, the auth broker, and a service behind it.
pub mod Policy
pub mod Ingress
pub mod Runtime
pub mod Profile
pub mod Bundle
pub mod Executed
pub mod History
pub mod Looked
pub mod Inspected
pub mod Discovered
use home_stack.Prelude.{◌≡◌, refl, [], ◌∷◌, none, String, ok}
use home_stack.Registry.{pos, Service, Registry}
use home_stack.Validate.{
  validate, check_services, check_service, check_broker_enabled, validate_display_token,
}

abbrev pub blank : Service
blank = record {
  display_name = "";
  kind = "";
  type = "proxy";
  subdomain = "";
  host = "";
  upstream = "";
  proxy_identity = "";
  auth = "";
  root = "";
  api_path = "";
  lifecycle = "managed";
  interval = pos 0;
  plist = "";
  binary = "";
  args = [];
  working_dir = "";
  env = [];
  health = record { port = pos 0; http_url = "" };
  url = "";
  enabled = none;
  install = none;
}

abbrev pub admin_service : Service
admin_service = record blank {
  subdomain = "admin";
  upstream = "127.0.0.1:9321";
  auth = "tailnet-or-sso";
}

abbrev pub broker_service : Service
broker_service = record blank { subdomain = "auth"; upstream = "127.0.0.1:3000" }

abbrev pub notes : Service
notes = record blank { subdomain = "notes"; upstream = "127.0.0.1:8080"; auth = "sso" }

abbrev pub house : Registry
house = record {
  services = ("admin", admin_service) ∷ ("tinyauth", broker_service) ∷ ("notes", notes) ∷ [];
}

abbrev pub turned_house : Registry
turned_house = record {
  services = ("tinyauth", broker_service) ∷ ("admin", admin_service) ∷ ("notes", notes) ∷ [];
}

pub house-valid : validate house "home.example.com" ≡ ok tt
unfolding validate check_services check_service validate_display_token check_broker_enabled
house-valid = refl
