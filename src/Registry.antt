-- ===== src/Registry.antt =====
-- portable/home-stack/admin/engine.go, the data: the registry of services, the manifest of an
-- installed binary, and what the engine derives from one entry.
pub mod Routing
use home_stack.Prelude.{
  ℕ, Bool, true, false, ◌&&◌, ◌||◌, not, List, [], ◌∷◌, Option, none, some, String, ◌==◌, ◌<>◌, Map,
  has_prefix, ltb, if◌then◌else◌,
}

-- Go's `int`; `negsuc n` is -(n + 1).
pub data ℤ : Type 0 where
  pos negsuc : ℕ → ℤ

pub record InstallSpec : Type 0 where
  pub method : String
  pub source : String
  pub pin : String
  pub version_cmd : String
  pub asset : String
  pub binary : String

pub record HealthConfig : Type 0 where
  pub port : ℤ
  pub http_url : String

-- A pointer that may be nil is an `Option`.
pub record Service : Type 0 where
  pub display_name : String
  pub kind : String
  pub type : String
  pub subdomain : String
  pub host : String
  pub upstream : String
  pub proxy_identity : String
  pub auth : String
  pub root : String
  pub api_path : String
  pub lifecycle : String
  pub interval : ℤ
  pub plist : String
  pub binary : String
  pub args : List String
  pub working_dir : String
  pub env : Map String
  pub health : HealthConfig
  pub url : String
  pub enabled : Option Bool
  pub install : Option InstallSpec

pub record Registry : Type 0 where
  pub services : Map Service

abbrev pub auth_none : String
auth_none = "none"

abbrev pub auth_tailnet : String
auth_tailnet = "tailnet"

abbrev pub auth_sso : String
auth_sso = "sso"

abbrev pub auth_tailnet_or_sso : String
auth_tailnet_or_sso = "tailnet-or-sso"

abbrev pub auth_broker_service : String
auth_broker_service = "tinyauth"

abbrev pub auth_identity_consumer : String
auth_identity_consumer = "admin"

abbrev pub default_task_interval : ℕ
default_task_interval = 3600

unfoldable pub is_enabled : Service → Bool
is_enabled svc = elim svc.enabled [ none ↦ true | some b ↦ b ]

unfoldable pub resolved_host : Service → String → String
resolved_host svc parent_domain =
    if not (svc.subdomain == "") then svc.subdomain <> "." <> parent_domain else svc.host

unfoldable pub routable_host : Service → String → String
routable_host svc parent_domain =
    let host = resolved_host svc parent_domain in
    if host == "" || has_prefix host "*." then "" else host

unfoldable pub routable_url : Service → String → String
routable_url svc parent_domain =
    let host = routable_host svc parent_domain in
    if host == "" || not (is_enabled svc) then "" else "https://" <> host

unfoldable pub generates_agent_plist : Service → Bool
generates_agent_plist svc =
    is_enabled svc && not (svc.type == "system") && not (svc.type == "static")

unfoldable pub requires_auth_broker : Service → Bool
requires_auth_broker svc = svc.auth == auth_sso || svc.auth == auth_tailnet_or_sso

unfoldable pub is_scheduled_task : Service → Bool
is_scheduled_task svc = svc.type == "task" || svc.kind == "scheduled"

unfoldable pub start_interval : Service → ℕ
start_interval svc = elim svc.interval [
  | pos n ↦ if ltb 0 n then n else default_task_interval
  | negsuc n ↦ default_task_interval
]
