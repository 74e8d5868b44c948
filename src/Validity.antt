-- ===== src/Validity.antt =====
-- What a valid registry is, stated without the code's order of checks, for `Validate` of engine.go.
pub mod Tokens
pub mod Fields
pub mod Accepts
pub mod Order
pub mod Consequences
use home_stack.Prelude.{
  ℕ, Bool, true, false, ◌≡◌, ◌≢◌, ◌⊎◌, List, [], ◌∷◌, Option, none, some, String, ◌==◌, ◌<>◌, All,
  Any, codes, Map, lookup, has_prefix, has_suffix,
}
use home_stack.Prelude.Regex.Language.{Matches}
use home_stack.Registry.{
  Service, Registry, InstallSpec, auth_broker_service, is_enabled, requires_auth_broker,
}
use home_stack.Validate.{
  is_control, is_blank, is_space, service_name_pattern, env_key_pattern, host_pattern,
  subdomain_pattern, install_methods, install_method_github_release,
}

abbrev pub OneOf : String → List String → Type 0
OneOf s l = Any (λ t. s ≡ t) l

-- No character of the text passes the test.
abbrev pub Lacks : (ℕ → Bool) → String → Type 0
Lacks p s = All (λ c. p c ≡ false) (codes s)

abbrev pub IsToken : String → Type 0
IsToken s = (s ≢ "") × Lacks is_control s

abbrev pub IsCaddyToken : String → Type 0
IsCaddyToken s = IsToken s × Lacks is_blank s

abbrev pub IsHost : String → Type 0
IsHost s = Lacks is_space s × Matches host_pattern (codes s)

-- The host is neither the parent domain nor below it.
abbrev pub IsOutside : String → String → Type 0
IsOutside host parent_domain =
    (host ≢ parent_domain)
    × (has_suffix host ("." <> parent_domain) ≡ false)
    × ¬ ((has_prefix host "*." ≡ true) × (has_suffix host parent_domain ≡ true))

abbrev pub HasSubdomain : Service → Type 0
HasSubdomain svc =
    (svc.subdomain ≢ "") × (svc.host ≡ "") × Matches subdomain_pattern (codes svc.subdomain)

abbrev pub HasHost : Service → String → Type 0
HasHost svc parent_domain =
    (svc.subdomain ≡ "") × (svc.host ≢ "") × IsHost svc.host × IsOutside svc.host parent_domain

-- The address, root and upstream that each type of service needs.
abbrev pub HasShape : Service → String → Type 0
HasShape svc parent_domain =
    OneOf svc.type ("system" ∷ "task" ∷ [])
    ⊎ ((svc.type ≡ "split")
        × (HasSubdomain svc ⊎ HasHost svc parent_domain)
        × IsCaddyToken svc.upstream
        × IsCaddyToken svc.root)
    ⊎ ((svc.type ≡ "static")
        × (HasSubdomain svc ⊎ HasHost svc parent_domain)
        × IsCaddyToken svc.root)
    ⊎ ((svc.type ≡ "proxy")
        × (((svc.subdomain ≡ "") × (svc.host ≡ "")) ⊎ HasSubdomain svc ⊎ HasHost svc parent_domain)
        × IsCaddyToken svc.upstream)

abbrev pub HasBroker : Map Service → Type 0
HasBroker services =
    (broker : Service) × (lookup auth_broker_service services ≡ some broker)
    × (broker.upstream ≢ "")

abbrev pub HasAuth : Map Service → Service → Type 0
HasAuth services svc =
    OneOf svc.auth ("" ∷ "none" ∷ [])
    ⊎ (OneOf svc.auth ("tailnet" ∷ "sso" ∷ "tailnet-or-sso" ∷ [])
        × ((svc.subdomain ≢ "") ⊎ (svc.host ≢ ""))
        × (OneOf svc.auth ("sso" ∷ "tailnet-or-sso" ∷ []) → HasBroker services))

abbrev pub HasProxyIdentity : Service → Type 0
HasProxyIdentity svc =
    (svc.proxy_identity ≡ "")
    ⊎ ((svc.proxy_identity ≡ "upstream") × OneOf svc.type ("proxy" ∷ "split" ∷ []))

abbrev pub IsEnvEntry : String × String → Type 0
IsEnvEntry (key, value) =
    Matches env_key_pattern (codes key)
    × (has_prefix key "HOME_STACK_" ≡ false)
    × Lacks is_control value

abbrev pub IsManifest : InstallSpec → Type 0
IsManifest i =
    OneOf i.method install_methods
    × IsToken i.source
    × Lacks is_control i.pin
    × Lacks is_control i.version_cmd
    × (i.method ≡ install_method_github_release → IsToken i.asset × IsToken i.binary)

abbrev pub HasManifest : Option InstallSpec → Type 0
HasManifest none = Unit
HasManifest (some i) = IsManifest i

-- One service of a valid registry.
pub record IsValidService (services : Map Service) (parent_domain name : String) (svc : Service)
    : Type 0 where
  pub named : Matches service_name_pattern (codes name)
  pub typed : svc.type ≢ ""
  pub kept : (svc.type ≡ "system") ⊎ (name ≡ "admin") → is_enabled svc ≡ true
  pub lifecycle : OneOf svc.lifecycle ("" ∷ "managed" ∷ "external" ∷ "custom" ∷ [])
  pub identity : HasProxyIdentity svc
  pub auth : HasAuth services svc
  pub labelled : Lacks is_control svc.display_name × Lacks is_control svc.kind
  pub shape : HasShape svc parent_domain
  pub started : Lacks is_control svc.binary × Lacks is_control svc.working_dir
  pub args : All (Lacks is_control) svc.args
  pub env : All IsEnvEntry svc.env
  pub manifest : HasManifest svc.install

-- Where the auth broker is registered and switched off, no enabled service but the broker needs it.
abbrev pub BrokerServes : Map Service → Type 0
BrokerServes services =
    (broker : Service)
    → lookup auth_broker_service services ≡ some broker
    → is_enabled broker ≡ false
    → All
        (λ entry.
          entry.0 ≢ auth_broker_service
          → is_enabled entry.1 ≡ true
          → requires_auth_broker entry.1 ≡ false)
        services

pub record IsValid (r : Registry) (parent_domain : String) : Type 0 where
  pub each : All (λ entry. IsValidService r.services parent_domain entry.0 entry.1) r.services
  pub served : BrokerServes r.services
