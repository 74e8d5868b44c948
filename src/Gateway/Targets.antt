-- ===== src/Gateway/Targets.antt =====
-- dev-gateway/main.go, the director: where a request can go.
use home_stack.Prelude.{true, ◌≡◌, ◌≢◌, ◌⊎◌, String, ◌<>◌}
use home_stack.Gateway.{GatewayEntry, entry_enabled}

-- An entry is enabled, has a host that is the request's or a wildcard that the request's ends in, and
-- is not the gateway's own.
abbrev pub IsTarget : String → GatewayEntry → String → Type 0
IsTarget name svc host =
    (name ≢ "dev-gateway")
    × (svc.host ≢ "")
    × (entry_enabled svc ≡ true)
    × ((svc.host ≡ host)
        ⊎ ((stem : String) × (tail : String) × (svc.host ≡ "*." <> tail)
            × (host ≡ stem <> "." <> tail)))

-- The host's own text, or a wildcard over it.
abbrev IsCovered : String → String → Type 0
IsCovered pattern host =
    (pattern ≡ host)
    ⊎ ((stem : String) × (tail : String) × (pattern ≡ "*." <> tail) × (host ≡ stem <> "." <> tail))
