-- ===== src/Validity/Order.antt =====
-- engine.go, `Validate` ranges over a Go map, whose order is random: the verdict does not depend on
-- it.
use home_stack.Prelude.{
  String, ◌≡◌, ◌↔◌, sym, ◌∙◌, inl, inr, ok, Map, lookup, HasDistinctKeys, perm-lookup, All-perm,
  All-imp, Permᴰ,
}
use mathlib.Core.List.Permᴰ
use home_stack.Registry.{Service, Registry, auth_broker_service}
use home_stack.Validate.{validate}
use home_stack.Validity.{HasAuth, IsValidService, IsValid}
use home_stack.Validity.Accepts.{validate_iff}

module _ (m n : Map Service)
    (same : lookup auth_broker_service m ≡ lookup auth_broker_service n) where
  HasAuth-same : (svc : Service) → HasAuth m svc → HasAuth n svc
  HasAuth-same svc (inl open_route) = inl open_route
  HasAuth-same svc (inr (mode, routed, gated)) =
      inr (mode, routed, λ needs. let (b, found, up) = gated needs in (b, sym same ∙ found, up))

  IsValidService-same :
      (pd name : String) (svc : Service)
      → IsValidService m pd name svc
      → IsValidService n pd name svc
  IsValidService-same pd name svc v = record {
    named = v.named;
    typed = v.typed;
    kept = v.kept;
    lifecycle = v.lifecycle;
    identity = v.identity;
    auth = HasAuth-same svc v.auth;
    labelled = v.labelled;
    shape = v.shape;
    started = v.started;
    args = v.args;
    env = v.env;
    manifest = v.manifest;
  }

IsValid-perm :
    (r s : Registry) (parent_domain : String)
    → Permᴰ r.services s.services
    → HasDistinctKeys r.services
    → IsValid r parent_domain
    → IsValid s parent_domain
IsValid-perm r s pd p d v =
    let same = (perm-lookup p d).1 auth_broker_service in
    record {
      each =
          All-perm _ p
            (All-imp _ (λ (name, svc). IsValidService-same _ _ same pd name svc) r.services v.each);
      served = λ broker found off. All-perm _ p (v.served broker (same ∙ found) off);
    }

-- Two iterations over one map, in any two orders, agree on whether the registry is valid.
pub validate-perm :
    (r s : Registry) (parent_domain : String)
    → Permᴰ r.services s.services
    → HasDistinctKeys r.services
    → (validate r parent_domain ≡ ok tt) ↔ (validate s parent_domain ≡ ok tt)
validate-perm r s pd p d = (
  λ e. (validate_iff s pd).1 (IsValid-perm r s pd p d ((validate_iff r pd).0 e)),
  λ e.
      (validate_iff r pd).1
        (IsValid-perm s r pd (Permᴰ.symm p) (perm-lookup p d).0 ((validate_iff s pd).0 e)),
)
