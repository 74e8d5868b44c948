-- ===== src/Caddyfile/Served.antt =====
-- engine.go, `GenerateCaddyfile`: which services get a route, and that the order of the map does
-- not matter.
use home_stack.Prelude.{
  true, ◌&&◌, ◌≡◌, ◌≢◌, ◌↔◌, ◌⊎◌, ◌∙◌, ap, ap₂, List, [], ◌∷◌, none, some, String, ◌==◌, ◌<>◌,
  Option-cases, Map, lookup, keys, HasDistinctKeys, perm-lookup, perm-keys, sort_strings,
  sort_strings-perm, Permᴰ, has_prefix, cut_prefix-append, refl, inl, inr, arith, eq_iff,
  Bool-cases,
}
use home_stack.Registry.{Service, Registry, is_enabled, resolved_host, auth_broker_service}
use home_stack.Registry.Routing.{HasAddress}
use home_stack.Validity.Tokens.{==-eq-false}
use home_stack.Portal.{project_catalog_service}
use home_stack.Portal.Catalog.{launchable_cases}
use home_stack.Caddyfile.{
  routed_host, upstream_of, write_route, write_service, write_services, generate_caddyfile,
}

-- A service has a route of its own: it is switched on, it names a subdomain or a host, and its host
-- is not the wildcard of the whole domain.
abbrev pub IsRouted : Service → String → Type 0
IsRouted svc parent_domain =
    (is_enabled svc ≡ true)
    × ((svc.subdomain ≢ "") ⊎ (svc.host ≢ ""))
    × (resolved_host svc parent_domain ≢ "*." <> parent_domain)

-- The loop of the generator finds a host for a service exactly when the service has a route of its
-- own, and then it is the service's host.
pub routed_host_iff :
    (svc : Service) (parent_domain host : String)
    → (routed_host svc parent_domain ≡ some host)
      ↔ (IsRouted svc parent_domain × (resolved_host svc parent_domain ≡ host))
unfolding routed_host
routed_host_iff svc parent_domain host =
    let sub = eq_iff svc.subdomain "" in
    let own = eq_iff svc.host "" in
    let wild = eq_iff (resolved_host svc parent_domain) ("*." <> parent_domain) in
    elim (Bool-cases (is_enabled svc)) [
      | inr off ↦ simp off (λ h. cc, λ h. cc (h.0.0, off))
      | inl on ↦ simp on (elim (Bool-cases (svc.subdomain == "" && svc.host == "")) [
        | inl blank ↦ simp blank (λ h. cc, λ h. ground (arith, sub, own))
        | inr named ↦
            simp named
              (elim (Bool-cases (resolved_host svc parent_domain == "*." <> parent_domain)) [
                | inl e ↦ simp e (λ h. cc, λ h. absurd (h.0.2 (wild.0 e)))
                | inr e ↦ simp e (
                  λ h. (
                    (refl, ground (arith, sub, own), (==-eq-false _ _).0 e),
                    ap (λ o. elim o [ none ↦ resolved_host svc parent_domain | some x ↦ x ]) h,
                  ),
                  λ h. ap some h.1,
                )
              ])
      ])
    ]

module _ (quote : String → String) (m n : Map Service)
    (same : (k : String) → lookup k m ≡ lookup k n) where
  upstream_of-same : (name : String) → upstream_of name m ≡ upstream_of name n
  unfolding upstream_of
  upstream_of-same name = rw (same name, upstream_of) refl

  write_route-same :
      (owner_home host name : String) (svc : Service)
      → write_route quote m owner_home host name svc ≡ write_route quote n owner_home host name svc
  unfolding write_route
  write_route-same owner_home host name svc =
      rw (upstream_of-same auth_broker_service, upstream_of-same "admin") refl

  write_service-same :
      (owner_home parent_domain name : String)
      → write_service quote m owner_home parent_domain name
        ≡ write_service quote n owner_home parent_domain name
  unfolding write_service
  write_service-same owner_home parent_domain name = elim (Option-cases (lookup name n)) [
    | inl e ↦ rw (same name ∙ e, e, write_service) refl
    | inr (svc, e) ↦
        rw (same name ∙ e, e, write_service)
          (elim (Option-cases (routed_host svc parent_domain)) [
            | inl none_routed ↦ simp none_routed refl
            | inr (host, routed) ↦ simp routed (write_route-same owner_home host name svc)
          ])
  ]

  write_services-same :
      (owner_home parent_domain : String) (names : List String)
      → write_services quote m owner_home parent_domain names
        ≡ write_services quote n owner_home parent_domain names
  unfolding write_services
  write_services-same owner_home parent_domain [] = refl
  write_services-same owner_home parent_domain (name ∷ names) =
      ap₂ (λ a b. a <> b) (write_service-same owner_home parent_domain name)
        (write_services-same owner_home parent_domain names)

-- Two registries that hold the same services, in any two orders, generate the same Caddyfile.
pub generate_caddyfile-perm :
    (quote : String → String) (r s : Registry) (email tailnet_ip owner_home parent_domain : String)
    → Permᴰ r.services s.services
    → HasDistinctKeys r.services
    → generate_caddyfile quote r email tailnet_ip owner_home parent_domain
      ≡ generate_caddyfile quote s email tailnet_ip owner_home parent_domain
unfolding generate_caddyfile
generate_caddyfile-perm quote r s email tailnet_ip owner_home parent_domain p d =
    let same = (perm-lookup p d).1 in
    rw
      (
        sort_strings-perm (perm-keys p),
        write_services-same quote r.services s.services same owner_home parent_domain
            (sort_strings (keys s.services)),
      )
      refl

star_prefix : (s : String) → has_prefix ("*." <> s) "*." ≡ true
unfolding has_prefix
star_prefix s = rw (cut_prefix-append "*." s) refl

address-IsRouted :
    (svc : Service) (parent_domain : String)
    → HasAddress svc parent_domain
    → IsRouted svc parent_domain
unfolding resolved_host
address-IsRouted svc parent_domain (on, named, plain) = (
  on,
  ground (arith, eq_iff svc.subdomain "", eq_iff svc.host "", named),
  λ e.
      let star = star_prefix parent_domain in
      let bad = ap (λ h. has_prefix h "*.") e ∙ star in ground arith,
)

-- Every service that the portal can launch has a route in the Caddyfile, at the host of its URL.
pub launchable_routed :
    (id : String) (svc : Service) (parent_domain : String)
    → (project_catalog_service id svc parent_domain).launchable ≡ true
    → (host : String) × (routed_host svc parent_domain ≡ some host)
      × ((project_catalog_service id svc parent_domain).url ≡ some (("https://" <> host) <> "/"))
launchable_routed id svc parent_domain launchable = elim (launchable_cases id svc parent_domain) [
  | inl (has, _, url) ↦ (
    _,
    (routed_host_iff svc parent_domain _).1 (address-IsRouted svc parent_domain has, refl),
    url,
  )
  | inr (_, never, _) ↦ cc
]
