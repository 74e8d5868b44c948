-- ===== src/Validate/Checks.antt =====
-- engine.go, the checks of one service, each a part of the body of `Validate`'s loop.
use home_stack.Prelude.{
  true, false, ◌&&◌, ◌||◌, not, List, [], ◌∷◌, Option, none, some, String, ◌==◌, if◌then◌else◌,
  Result, ok, err, ◌>>◌, refuse_if, Map, lookup, has_prefix, any,
}
use home_stack.Prelude.Regex.{match_string}
use home_stack.Registry.{
  Service, InstallSpec, auth_none, auth_tailnet, auth_sso, auth_tailnet_or_sso, auth_broker_service,
  is_enabled, requires_auth_broker,
}
use home_stack.Validate.Errors.{
  TokenError, ServiceError, invalid_name, missing_type, system_disabled, admin_disabled,
  unknown_lifecycle, proxy_identity_shape, unknown_proxy_identity, unroutable_auth, no_broker,
  broker_without_upstream, unknown_auth, invalid_display_name, invalid_kind, no_address,
  two_addresses, host_overlap, invalid_upstream, invalid_root, unsupported_type, invalid_binary,
  invalid_working_dir, invalid_arg, invalid_env_key, reserved_env_key, invalid_env_value,
  unknown_install_method, invalid_install, invalid_release,
}
use home_stack.Validate.Tokens.{
  service_name_pattern, env_key_pattern, validate_display_token, validate_token,
  validate_caddy_token, validate_host, validate_subdomain, host_overlaps_parent,
}

-- `if err := …; err != nil { return fmt.Errorf("… %w", err) }`.
abbrev pub wrapped :
    Result TokenError (Unit {0}) → (TokenError → ServiceError) → Result ServiceError (Unit {0})
wrapped (ok u) f = ok u
wrapped (err e) f = err (f e)

-- `installMethods`, and the constants that it lists.
abbrev pub install_method_github_release : String
install_method_github_release = "github-release"

abbrev pub install_methods : List String
install_methods =
    install_method_github_release ∷ "xcaddy" ∷ "source-go" ∷ "npm-global" ∷ "opencode"
    ∷ "hermes-pinned" ∷ "brew" ∷ []

-- The texts of a manifest, once its method is known.
unfoldable pub install_fields : InstallSpec → Result ServiceError (Unit {0})
unfolding validate_token
install_fields i = do
  wrapped (validate_token "install.source" i.source false) invalid_install
  wrapped (validate_token "install.pin" i.pin true) invalid_install
  wrapped (validate_token "install.version_cmd" i.version_cmd true) invalid_install
  if i.method == install_method_github_release
      then (do
        wrapped (validate_token "install.asset" i.asset false) invalid_release
        wrapped (validate_token "install.binary" i.binary false) invalid_release)
      else ok tt

unfoldable pub validate_install : Option InstallSpec → Result ServiceError (Unit {0})
unfolding install_fields
validate_install none = ok tt
validate_install (some i) = do
  refuse_if (not (any (λ m. i.method == m) install_methods)) (unknown_install_method i.method)
  install_fields i

unfoldable pub check_identity : String → Service → Result ServiceError (Unit {0})
unfolding match_string is_enabled
check_identity name svc = do
  refuse_if (not (match_string service_name_pattern name)) invalid_name
  refuse_if (svc.type == "") missing_type
  refuse_if (svc.type == "system" && not (is_enabled svc)) system_disabled
  refuse_if (name == "admin" && not (is_enabled svc)) admin_disabled

unfoldable pub check_lifecycle : Service → Result ServiceError (Unit {0})
check_lifecycle svc =
    if svc.lifecycle == ""
      || svc.lifecycle == "managed"
      || svc.lifecycle == "external"
      || svc.lifecycle == "custom"
    then ok tt
    else err (unknown_lifecycle svc.lifecycle)

unfoldable pub check_proxy_identity : Service → Result ServiceError (Unit {0})
check_proxy_identity svc =
    if svc.proxy_identity == ""
    then ok tt
    else if svc.proxy_identity == "upstream"
    then refuse_if (not (svc.type == "proxy") && not (svc.type == "split")) proxy_identity_shape
    else err (unknown_proxy_identity svc.proxy_identity)

-- The broker's part of the `auth` check.
unfoldable pub check_broker : String → Option Service → Result ServiceError (Unit {0})
check_broker auth none = err (no_broker auth)
check_broker auth (some broker) = refuse_if (broker.upstream == "") (broker_without_upstream auth)

unfoldable pub check_auth : Map Service → Service → Result ServiceError (Unit {0})
unfolding check_broker requires_auth_broker lookup
check_auth services svc =
    if svc.auth == "" || svc.auth == auth_none
    then ok tt
    else if svc.auth == auth_tailnet || svc.auth == auth_sso || svc.auth == auth_tailnet_or_sso
    then (do
      refuse_if (svc.subdomain == "" && svc.host == "") (unroutable_auth svc.auth)
      if requires_auth_broker svc
          then check_broker svc.auth (lookup auth_broker_service services)
          else ok tt)
    else err (unknown_auth svc.auth)

unfoldable pub check_host : Service → String → Result ServiceError (Unit {0})
unfolding validate_host host_overlaps_parent
check_host svc parent_domain = do
  validate_host svc.host
  refuse_if (host_overlaps_parent svc.host parent_domain) (host_overlap svc.host parent_domain)

-- The address of a static or split service: exactly one of subdomain and host.
unfoldable pub check_address : Service → String → Result ServiceError (Unit {0})
unfolding validate_subdomain check_host
check_address svc parent_domain = do
  refuse_if (svc.subdomain == "" && svc.host == "") no_address
  refuse_if (not (svc.subdomain == "") && not (svc.host == "")) two_addresses
  if not (svc.subdomain == "")
      then validate_subdomain svc.subdomain
      else check_host svc parent_domain

-- That of a proxy, which may have neither.
unfoldable pub check_proxy_address : Service → String → Result ServiceError (Unit {0})
unfolding validate_subdomain check_host
check_proxy_address svc parent_domain = do
  refuse_if (not (svc.subdomain == "") && not (svc.host == "")) two_addresses
  if not (svc.subdomain == "")
      then validate_subdomain svc.subdomain
      else if not (svc.host == "")
      then check_host svc parent_domain
      else ok tt

-- The `switch svc.Type`.
unfoldable pub check_shape : Service → String → Result ServiceError (Unit {0})
unfolding check_address check_proxy_address validate_caddy_token
check_shape svc parent_domain =
    if svc.type == "system" || svc.type == "task"
    then ok tt
    else if svc.type == "split"
    then (do
      check_address svc parent_domain
      wrapped (validate_caddy_token "upstream" svc.upstream false) invalid_upstream
      wrapped (validate_caddy_token "root" svc.root false) invalid_root)
    else if svc.type == "static"
    then (do
      check_address svc parent_domain
      wrapped (validate_caddy_token "root" svc.root false) invalid_root)
    else if svc.type == "proxy"
    then (do
      check_proxy_address svc parent_domain
      wrapped (validate_caddy_token "upstream" svc.upstream false) invalid_upstream)
    else err (unsupported_type svc.type)

unfoldable pub check_args : List String → Result ServiceError (Unit {0})
unfolding validate_token
check_args [] = ok tt
check_args (arg ∷ args) = do wrapped (validate_token "arg" arg true) invalid_arg; check_args args

unfoldable pub check_env : Map String → Result ServiceError (Unit {0})
unfolding validate_token match_string
check_env [] = ok tt
check_env ((key, value) ∷ env) = do
  refuse_if (not (match_string env_key_pattern key)) (invalid_env_key key)
  refuse_if (has_prefix key "HOME_STACK_") (reserved_env_key key)
  wrapped (validate_token "env value" value true) (invalid_env_value key)
  check_env env

-- What the service starts: binary, directory, arguments, environment.
unfoldable pub check_process : Service → Result ServiceError (Unit {0})
unfolding check_args check_env validate_install
check_process svc = do
  if not (svc.binary == "")
      then wrapped (validate_token "binary" svc.binary true) invalid_binary
      else ok tt
  if not (svc.working_dir == "")
      then wrapped (validate_token "working_dir" svc.working_dir true) invalid_working_dir
      else ok tt
  check_args svc.args
  check_env svc.env
  validate_install svc.install

-- The body of the loop.
unfoldable pub check_service :
    Map Service → String → String → Service → Result ServiceError (Unit {0})
unfolding check_identity check_lifecycle check_proxy_identity check_auth check_shape check_process
check_service services parent_domain name svc = do
  check_identity name svc
  check_lifecycle svc
  check_proxy_identity svc
  check_auth services svc
  wrapped (validate_display_token "display_name" svc.display_name) invalid_display_name
  wrapped (validate_display_token "kind" svc.kind) invalid_kind
  check_shape svc parent_domain
  check_process svc
