-- ===== src/Launchd/Pins.antt =====
-- engine.go, `GenerateLaunchdPlist`: the environment of an agent.
use home_stack.Prelude.{
  true, ◌≡◌, refl, ◌∙◌, [], ◌∷◌, some, String, Map, lookup, insert, lookup-insert_ne, All,
  All-lookup, ok, has_prefix,
}
use home_stack.Registry.{Service, Registry}
use home_stack.Validate.{validate}
use home_stack.Validity.{IsEnvEntry, IsValidService}
use home_stack.Validity.Accepts.{validate_iff}
use home_stack.Launchd.{pins, overlay, agent_env}

overlay-reserved :
    (key : String) (own env : Map String)
    → has_prefix key "HOME_STACK_" ≡ true
    → All IsEnvEntry own
    → lookup key (overlay own env) ≡ lookup key env
unfolding overlay
overlay-reserved key [] env reserved legal = refl
overlay-reserved key ((k, v) ∷ own) env reserved ((_, free, _), legal) =
    overlay-reserved key own (insert k v env) reserved legal
    ∙ lookup-insert_ne k key v env (λ e. cc (e, reserved, free))

-- In a registry that `Validate` accepts, the environment of a service's agent has at every name that
-- begins with HOME_STACK_ what the engine set there, and nothing where it set nothing: the service's
-- own environment changes none of them.
pub agent_env-pins :
    (r : Registry) (profile parent_domain config_dir name key : String) (svc : Service)
    → validate r parent_domain ≡ ok tt
    → lookup name r.services ≡ some svc
    → has_prefix key "HOME_STACK_" ≡ true
    → lookup key (agent_env name svc profile parent_domain config_dir)
      ≡ lookup key (pins name svc profile parent_domain config_dir)
unfolding agent_env
agent_env-pins r profile parent_domain config_dir name key svc valid found reserved =
    let v = (validate_iff r parent_domain).0 valid in
    let here : IsValidService r.services parent_domain name svc =
      All-lookup _ r.services name svc v.each found in
    overlay-reserved key svc.env _ reserved here.env
