-- ===== src/Validity/Consequences.antt =====
-- What the engine may rely on once `Validate` of engine.go has passed.
use home_stack.Prelude.{
  String, true, ◌≡◌, ◌≢◌, ◌⊎◌, refl, [], ◌∷◌, inl, inr, ok, some, Map, lookup, All, All-lookup,
  codes, Bool-cases, arith, eq_iff,
}
use home_stack.Prelude.Regex.Language.{Matches-Within}
use home_stack.Registry.{Service, Registry, auth_broker_service, is_enabled, requires_auth_broker}
use home_stack.Validate.{name_char, validate}
use home_stack.Validity.{OneOf, HasBroker, HasAuth, IsValidService}
use home_stack.Validity.Tokens.{differ}
use home_stack.Validity.Accepts.{validate_iff}

requires_auth_broker-OneOf :
    (svc : Service)
    → requires_auth_broker svc ≡ true
    → OneOf svc.auth ("sso" ∷ "tailnet-or-sso" ∷ [])
unfolding requires_auth_broker
requires_auth_broker-OneOf svc h =
    ground (arith, eq_iff svc.auth "sso", eq_iff svc.auth "tailnet-or-sso")

not_open : {s : String} → OneOf s ("sso" ∷ "tailnet-or-sso" ∷ []) → ¬ OneOf s ("" ∷ "none" ∷ [])
not_open (inl e) (inl k) = differ refl e k
not_open (inl e) (inr (inl k)) = differ refl e k
not_open (inl e) (inr (inr k)) = k
not_open (inr (inl e)) (inl k) = differ refl e k
not_open (inr (inl e)) (inr (inl k)) = differ refl e k
not_open (inr (inl e)) (inr (inr k)) = k
not_open (inr (inr e)) k = e

HasAuth-HasBroker :
    (services : Map Service) (svc : Service)
    → requires_auth_broker svc ≡ true
    → HasAuth services svc
    → HasBroker services
HasAuth-HasBroker services svc needs (inl open_route) =
    absurd (not_open (requires_auth_broker-OneOf svc needs) open_route)
HasAuth-HasBroker services svc needs (inr (mode, routed, gated)) =
    gated (requires_auth_broker-OneOf svc needs)

-- In a registry that `Validate` accepts, an enabled service other than the broker that needs the
-- broker finds it registered, switched on, and with an upstream to forward to.
pub broker_serves :
    (r : Registry) (parent_domain name : String) (svc : Service)
    → validate r parent_domain ≡ ok tt
    → lookup name r.services ≡ some svc
    → name ≢ auth_broker_service
    → is_enabled svc ≡ true
    → requires_auth_broker svc ≡ true
    → (broker : Service) × (lookup auth_broker_service r.services ≡ some broker)
      × (broker.upstream ≢ "")
      × (is_enabled broker ≡ true)
broker_serves r pd name svc valid found other on needs =
    let v = (validate_iff r pd).0 valid in
    let here : IsValidService r.services pd name svc =
      All-lookup _ r.services name svc v.each found in
    let (broker, listed, up) = HasAuth-HasBroker r.services svc needs here.auth in
    (
      broker,
      listed,
      up,
      elim (Bool-cases (is_enabled broker)) [
        | inl served ↦ served
        | inr off ↦
            cc (All-lookup _ r.services name svc (v.served broker listed off) found other on, needs)
      ],
    )

-- A registered service's name holds lower-case letters, digits and dashes only, so a file name made
-- of it has no directory separator and no dot of its own.
pub name_plain :
    (r : Registry) (parent_domain name : String) (svc : Service)
    → validate r parent_domain ≡ ok tt
    → lookup name r.services ≡ some svc
    → All (λ c. name_char c ≡ true) (codes name)
name_plain r pd name svc valid found =
    let v = (validate_iff r pd).0 valid in
    let here : IsValidService r.services pd name svc =
      All-lookup _ r.services name svc v.each found in
    Matches-Within name_char (ground arith, ground arith) here.named

-- The ingress and the control plane are switched on in every valid registry.
pub kept_enabled :
    (r : Registry) (parent_domain name : String) (svc : Service)
    → validate r parent_domain ≡ ok tt
    → lookup name r.services ≡ some svc
    → (svc.type ≡ "system") ⊎ (name ≡ "admin")
    → is_enabled svc ≡ true
kept_enabled r pd name svc valid found k =
    let here : IsValidService r.services pd name svc =
      All-lookup _ r.services name svc ((validate_iff r pd).0 valid).each found in
    here.kept k
