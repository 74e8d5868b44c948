-- ===== src/Gateway.antt =====
-- portable/home-stack/dev-gateway/main.go: the proxy of the development hosts.
pub mod Targets
use home_stack.Prelude.{
  Bool, true, false, ◌&&◌, ◌||◌, not, List, [], ◌∷◌, Option, none, some, String, ◌==◌, ◌<>◌, Map,
  has_prefix, has_suffix, trim_prefix, if◌then◌else◌,
}

-- The gateway's own `Service`, three fields of an entry.
pub record GatewayEntry : Type 0 where
  pub upstream : String
  pub host : String
  pub enabled : Option Bool

unfoldable pub entry_enabled : GatewayEntry → Bool
entry_enabled svc = elim svc.enabled [ none ↦ true | some b ↦ b ]

-- The test `match`.
unfoldable pub host_matches : GatewayEntry → String → Bool
host_matches svc host =
    if svc.host == host
    then true
    else if has_prefix svc.host "*."
    then has_suffix host (trim_prefix svc.host "*")
    else false

-- What a request is sent to. A text that net/url does not parse leaves a nil URL, whose use panics.
pub data Routed : Type 0 where
  unrouted : Routed
  panicked : String → Routed
  proxied : String → String → String → Routed

-- Whether the loop stops at an entry.
unfoldable pub serves : String → GatewayEntry → String → Bool
serves name svc host =
    if svc.host == "" || not (entry_enabled svc)
    then false
    else host_matches svc host && not (name == "dev-gateway")

-- `parse` is net/url's, to the scheme and the host.
module _ (parse : String → Option (String × String)) where
  abbrev pub send : String → GatewayEntry → Routed
  send name svc = elim (parse ("http://" <> svc.upstream)) [
    | none ↦ panicked name
    | some target ↦ proxied name target.0 target.1
  ]

  -- The loop, in one order of the map.
  unfoldable pub route : Map GatewayEntry → String → Routed
  route [] host = unrouted
  route ((name, svc) ∷ rest) host = elim (serves name svc host) [
    | true ↦ send name svc
    | false ↦ route rest host
  ]

  -- The director. `registry` is what the file holds, `none` where it cannot be read; `unmarshal` is the
  -- YAML library's, whose error the code drops, so that it answers with what it had read till then.
  unfoldable pub direct : (String → Map GatewayEntry) → Option String → String → Routed
  direct unmarshal none host = unrouted
  direct unmarshal (some registry) host = route (unmarshal registry) host
