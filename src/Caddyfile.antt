-- ===== src/Caddyfile.antt =====
-- portable/home-stack/admin/engine.go, `GenerateCaddyfile` and the writers it calls. `quote` is
-- fmt's `%q`. A writer answers the text that the source's adds to its buffer.
pub mod Identity
pub mod Served
use home_stack.Prelude.{
  Bool, true, false, ◌&&◌, ◌||◌, not, List, [], ◌∷◌, ◌++◌, Option, none, some, String, ◌==◌, ◌<>◌,
  Map, lookup, keys, if◌then◌else◌, sort_strings, has_prefix, trim_prefix, trim_space, replace_all,
  split,
}
use home_stack.Prelude.Paths
use home_stack.Registry.{
  Service, Registry, is_enabled, resolved_host, requires_auth_broker, auth_tailnet, auth_sso,
  auth_tailnet_or_sso, auth_broker_service, auth_identity_consumer,
}

abbrev tailnet_cgnat_range : String
tailnet_cgnat_range = "100.64.0.0/10"

unfoldable pub caddy_matcher_name : String → String
caddy_matcher_name name = replace_all name 45 "_"

unfoldable pub expand_path : String → String → String
expand_path path home =
    if has_prefix path "~/" then Paths.join (home ∷ trim_prefix path "~/" ∷ []) else path

-- The header that proves the hop to Admin.
abbrev pub proxy_secret_header : String
proxy_secret_header = "header_up X-Home-Stack-Proxy-Auth {env.HOME_STACK_ADMIN_PROXY_SECRET}"

-- The headers of `writeReverseProxy`.
unfoldable pub proxy_headers : String → Service → Bool → List String
proxy_headers name svc identity_headers =
    (if svc.proxy_identity == "upstream"
      then "header_up Host {upstream_hostport}" ∷ "header_up Origin http://{upstream_hostport}" ∷ []
      else [])
    ++ (if identity_headers
        then "header_up X-Webauth-User {http.auth.user.tailscale_login}"
          ∷ "header_up X-Webauth-Email {http.auth.user.tailscale_user}"
          ∷ "header_up X-Webauth-Name {http.auth.user.tailscale_name}" ∷ "header_up -Remote-User"
          ∷ "header_up -Remote-Email" ∷ "header_up -Remote-Groups" ∷ "header_up -Remote-Name" ∷ []
        else if requires_auth_broker svc
        then "header_up -X-Webauth-User" ∷ "header_up -X-Webauth-Email"
          ∷ "header_up -X-Webauth-Name" ∷ []
        else [])
    ++ (if name == auth_identity_consumer && (identity_headers || requires_auth_broker svc)
        then proxy_secret_header ∷ []
        else [])

abbrev header_lines : String → List String → String
header_lines indent [] = ""
header_lines indent (h ∷ hs) = indent <> "\t" <> h <> "\n" <> header_lines indent hs

unfoldable pub write_reverse_proxy : String → String → Service → Bool → String
write_reverse_proxy indent name svc identity_headers =
    elim (proxy_headers name svc identity_headers) [
      | [] ↦ indent <> "reverse_proxy " <> svc.upstream <> "\n"
      | h ∷ hs ↦
          indent
          <> "reverse_proxy "
          <> svc.upstream
          <> " {\n"
          <> header_lines indent (h ∷ hs)
          <> indent
          <> "}\n"
    ]

unfoldable pub write_forward_auth : String → String → String
write_forward_auth indent broker_upstream =
    indent <> "forward_auth " <> broker_upstream <> " {\n" <> indent <> "\turi /api/auth/caddy\n"
    <> indent <> "\tcopy_headers Remote-User Remote-Email Remote-Groups Remote-Name\n" <> indent
    <> "}\n"

module _ (quote : String → String) where
  -- A file server with the application's page for every other path.
  abbrev write_files : String → String → String
  write_files indent root =
      indent
      <> "root "
      <> quote root
      <> "\n"
      <> indent
      <> "try_files {path} /index.html\n"
      <> indent
      <> "file_server\n"

  -- The loop over the path prefixes of a split service.
  abbrev write_prefixes : String → String → Service → Bool → List String → String
  write_prefixes indent name svc identity_headers [] = ""
  write_prefixes indent name svc identity_headers (path ∷ paths) =
      indent
      <> "handle "
      <> trim_space path
      <> "* {\n"
      <> write_reverse_proxy (indent <> "\t") name svc identity_headers
      <> indent
      <> "}\n"
      <> write_prefixes indent name svc identity_headers paths

  unfoldable pub write_service_body : String → String → Service → String → String → Bool → String
  write_service_body indent name svc owner_home portal_upstream identity_headers =
      let root = expand_path svc.root owner_home in
      if svc.type == "static"
      then (if name == "portal" && not (portal_upstream == "")
          then indent
            <> "@portal_projections path /.well-known/home-stack/catalog.json /.well-known/home-stack/status.json\n"
            <> indent
            <> "handle @portal_projections {\n"
            <> indent
            <> "\treverse_proxy "
            <> portal_upstream
            <> "\n"
            <> indent
            <> "}\n"
            <> indent
            <> "handle {\n"
            <> write_files (indent <> "\t") root
            <> indent
            <> "}\n"
          else write_files indent root)
      else if svc.type == "proxy"
      then write_reverse_proxy indent name svc identity_headers
      else if svc.type == "split"
      then write_prefixes indent name svc identity_headers
          (split (if svc.api_path == "" then "/api" else svc.api_path) 44)
        <> indent
        <> "handle {\n"
        <> write_files (indent <> "\t") root
        <> indent
        <> "}\n"
      else ""

  -- `broker` is the upstream of the broker's entry.
  unfoldable pub write_authenticated_body :
      String → String → String → Service → String → String → String → String
  write_authenticated_body broker indent name svc owner_home portal_upstream host_label =
      if svc.auth == auth_tailnet
      then indent
        <> "tailscale_auth\n"
        <> write_service_body indent name svc owner_home portal_upstream true
      else if svc.auth == auth_sso
      then write_forward_auth indent broker
        <> write_service_body indent name svc owner_home portal_upstream false
      else if svc.auth == auth_tailnet_or_sso
      then (let matcher = "@" <> host_label <> "_tailnet" in
          indent
          <> matcher
          <> " remote_ip "
          <> tailnet_cgnat_range
          <> "\n"
          <> indent
          <> "handle "
          <> matcher
          <> " {\n"
          <> indent
          <> "\ttailscale_auth\n"
          <> write_service_body (indent <> "\t") name svc owner_home portal_upstream true
          <> indent
          <> "}\n"
          <> indent
          <> "handle {\n"
          <> write_forward_auth (indent <> "\t") broker
          <> write_service_body (indent <> "\t") name svc owner_home portal_upstream false
          <> indent
          <> "}\n")
      else write_service_body indent name svc owner_home portal_upstream false

-- The upstream of an entry, and "" where there is none.
unfoldable pub upstream_of : String → Map Service → String
upstream_of name services = elim (lookup name services) [ none ↦ "" | some svc ↦ svc.upstream ]

-- The tests at the head of `GenerateCaddyfile`'s loop: the host of the route, if there is one.
unfoldable pub routed_host : Service → String → Option String
routed_host svc parent_domain =
    if not (is_enabled svc)
    then none
    else if svc.subdomain == "" && svc.host == ""
    then none
    else if resolved_host svc parent_domain == "*." <> parent_domain
    then none
    else some (resolved_host svc parent_domain)

module _ (quote : String → String) where
  -- The rest of the loop's body, at a host.
  unfoldable pub write_route : Map Service → String → String → String → Service → String
  write_route services owner_home host name svc =
      let label = caddy_matcher_name name in
      let host_label = if has_prefix host "*." then "wildcard_" <> label else label in
      "\t@"
      <> host_label
      <> " host "
      <> host
      <> "\n"
      <> "\thandle @"
      <> host_label
      <> " {\n"
      <> write_authenticated_body quote (upstream_of auth_broker_service services) "\t\t" name svc
          owner_home (upstream_of "admin" services) host_label
      <> "\t}\n\n"

  unfoldable pub write_service : Map Service → String → String → String → String
  write_service services owner_home parent_domain name = elim (lookup name services) [
    | none ↦ ""
    | some svc ↦ elim (routed_host svc parent_domain) [
      | none ↦ ""
      | some host ↦ write_route services owner_home host name svc
    ]
  ]

  unfoldable pub write_services : Map Service → String → String → List String → String
  write_services services owner_home parent_domain [] = ""
  write_services services owner_home parent_domain (name ∷ names) =
      write_service services owner_home parent_domain name
      <> write_services services owner_home parent_domain names

  unfoldable pub generate_caddyfile : Registry → String → String → String → String → String
  generate_caddyfile r email tailnet_ip owner_home parent_domain =
      "{\n\temail "
      <> email
      <> "\n\tlog {\n\t\tlevel WARN\n\t}\n}\n\n"
      <> "(cloudflare_tls) {\n"
      <> "\ttls {\n"
      <> "\t\tdns cloudflare {env.CLOUDFLARE_API_TOKEN}\n"
      <> "\t}\n}\n\n"
      <> "*."
      <> parent_domain
      <> " {\n"
      <> "\tbind "
      <> tailnet_ip
      <> "\n"
      <> "\timport cloudflare_tls\n\n"
      <> write_services r.services owner_home parent_domain (sort_strings (keys r.services))
      <> "\thandle {\n\t\tabort\n\t}\n"
      <> "}\n"
