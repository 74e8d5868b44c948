-- ===== src/Http.antt =====
-- portable/home-stack/admin/main.go: the table of routes, and the middleware `withMethod`,
-- `withAuth` and `withMutation` before the handlers. net/http's `BasicAuth` and net/url's `Parse`
-- are parameters, and so are the handlers.
pub mod Guards
pub mod Access
use home_stack.Prelude.{
  ℕ, Bool, true, false, ◌&&◌, not, List, [], ◌∷◌, Option, none, some, String, ◌==◌, Map, lookup,
  if◌then◌else◌, equal_fold, ◌<>◌,
}

-- The fields of `http.Request` that the middleware reads. Header names are in canonical form.
pub record Request : Type 0 where
  pub method : String
  pub host : String
  pub path : String
  pub header : Map String

-- The fields of `server` that the middleware reads.
pub record Server : Type 0 where
  pub parent_domain : String
  pub admin_username : String
  pub admin_password : String
  pub proxy_auth_secret : String

-- What a handler answers: `writeJSON` with a refusal, after the headers it sets, or a page.
pub data Reply {ℓ} (A : Type ℓ) : Type ℓ where
  refusal : ℕ → Map String → String → Reply A
  page : A → Reply A

-- `Header.Get`.
unfoldable pub get : String → Request → String
get name r = elim (lookup name r.header) [ none ↦ "" | some value ↦ value ]

module _ {ℓ} {A : Type ℓ} where
  unfoldable pub with_method : String → (Request → Reply A) → Request → Reply A
  with_method method next r =
      if not (r.method == method)
      then refusal 405 (("Allow", method) ∷ []) "method not allowed"
      else next r

unfoldable pub proxy_identity : Server → Request → String
proxy_identity s r =
    if s.proxy_auth_secret == ""
    then ""
    else if not (get "X-Home-Stack-Proxy-Auth" r == s.proxy_auth_secret)
    then ""
    else if not (get "X-Webauth-User" r == "")
    then get "X-Webauth-User" r
    else get "Remote-User" r

module _ (basic_auth : Request → Option (String × String)) where
  unfoldable pub credentials_match : Server → Request → Bool
  credentials_match s r = elim (basic_auth r) [
    | none ↦ false
    | some (username, password) ↦ username == s.admin_username && password == s.admin_password
  ]

module _ {ℓ} {A : Type ℓ} (basic_auth : Request → Option (String × String)) where
  unfoldable pub with_auth : Server → (Request → Reply A) → Request → Reply A
  with_auth s next r =
      if not (proxy_identity s r == "")
      then next r
      else if s.admin_password == ""
      then refusal 503 []
          "admin password is not configured; set HOME_STACK_ADMIN_PASSWORD in env.local"
      else if credentials_match basic_auth s r
      then next r
      else refusal 401
          (("WWW-Authenticate", "Basic realm=\"home-stack admin\", charset=\"UTF-8\"") ∷ [])
          "authentication required"

-- Whether a URL that net/url parses names this host.
module _ (url_host : String → Option String) where
  unfoldable pub names_host : String → Request → Bool
  names_host url r = elim (url_host url) [ none ↦ false | some host ↦ equal_fold host r.host ]

  unfoldable pub valid_origin : Request → Bool
  valid_origin r =
      if not (get "Origin" r == "")
      then names_host (get "Origin" r) r
      else if not (get "Referer" r == "")
      then names_host (get "Referer" r) r
      else true

module _ {ℓ} {A : Type ℓ} (url_host : String → Option String) where
  unfoldable pub with_mutation : (Request → Reply A) → Request → Reply A
  with_mutation next r =
      if not (get "X-Home-Stack-Admin" r == "1")
      then refusal 403 [] "missing admin mutation header"
      else if not (valid_origin url_host r)
      then refusal 403 [] "invalid mutation origin/referer"
      else next r

-- The handlers, by the name after `handle`.
pub data Endpoint : Type 0 where
  portal_catalog : Endpoint
  portal_status : Endpoint
  admin : Endpoint
  asset : Endpoint
  health : Endpoint
  status : Endpoint
  overview : Endpoint
  incidents : Endpoint
  events : Endpoint
  doctor : Endpoint
  deploy_preview : Endpoint
  services : Endpoint
  action : Endpoint

abbrev pub portal_catalog_path : String
portal_catalog_path = "/.well-known/home-stack/catalog.json"

abbrev pub portal_status_path : String
portal_status_path = "/.well-known/home-stack/status.json"

-- The calls of `mux.Handle`, in their order.
module _ {ℓ} {A : Type ℓ} (basic_auth : Request → Option (String × String))
    (url_host : String → Option String) (handle : Endpoint → Request → Reply A) where
  -- A route that reads, behind the login.
  abbrev reads : Server → String → Endpoint → String × (Request → Reply A)
  reads s pattern e = (pattern, with_auth basic_auth s (with_method "GET" (handle e)))

  unfoldable pub routes : Server → List (String × (Request → Reply A))
  routes s =
      (portal_catalog_path, with_method "GET" (handle portal_catalog))
      ∷ (portal_status_path, with_method "GET" (handle portal_status))
      ∷ reads s "/" admin
      ∷ reads s "/assets/" asset
      ∷ reads s "/api/health" health
      ∷ reads s "/api/status" status
      ∷ reads s "/api/overview" overview
      ∷ reads s "/api/incidents" incidents
      ∷ reads s "/api/events" events
      ∷ reads s "/api/doctor" doctor
      ∷ reads s "/api/deploy/preview" deploy_preview
      ∷ reads s "/api/services" services
      ∷ (
        "/api/actions",
        with_auth basic_auth s (with_mutation url_host (with_method "POST" (handle action))),
      )
      ∷ []
