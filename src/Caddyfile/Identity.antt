-- ===== src/Caddyfile/Identity.antt =====
-- engine.go, `writeReverseProxy`: the identity that a proxied service is told.
use home_stack.Prelude.{Bool, true, ◌≡◌, ◌↔◌, ◌⊎◌, String, ◌==◌, arith, eq_iff, any}
use home_stack.Registry.{Service, requires_auth_broker, auth_identity_consumer}
use home_stack.Caddyfile.{proxy_headers, proxy_secret_header}

-- Whether a header line is written.
abbrev pub writes : String → String → Service → Bool → Bool
writes header name svc identity_headers =
    any (λ h. h == header) (proxy_headers name svc identity_headers)

-- The secret goes to Admin only, and to it exactly when it stands behind the tailnet's gate or the
-- broker.
pub secret_iff :
    (name : String) (svc : Service) (identity_headers : Bool)
    → (writes proxy_secret_header name svc identity_headers ≡ true) ↔ (
        (name ≡ auth_identity_consumer)
        × ((identity_headers ≡ true) ⊎ (requires_auth_broker svc ≡ true)))
unfolding proxy_headers
secret_iff name svc identity_headers = ground (arith, eq_iff name auth_identity_consumer)

-- Whoever gets the secret gets no header by which the caller could name another user: those of the
-- tailnet are set by Caddy or taken away, and those of the broker are taken away where the broker
-- does not set them.
pub secret_cleans :
    (name : String) (svc : Service) (identity_headers : Bool)
    → writes proxy_secret_header name svc identity_headers ≡ true
    → ((writes "header_up X-Webauth-User {http.auth.user.tailscale_login}" name svc identity_headers
          ≡ true)
        × (writes "header_up -Remote-User" name svc identity_headers ≡ true))
      ⊎ ((requires_auth_broker svc ≡ true)
          × (writes "header_up -X-Webauth-User" name svc identity_headers ≡ true))
unfolding proxy_headers
secret_cleans name svc identity_headers h = ground (arith, eq_iff name auth_identity_consumer)
