-- ===== src/Registry/Routing.antt =====
-- engine.go, `RoutableHost` and `RoutableURL`: which services have an address of their own.
use home_stack.Prelude.{
  ◌≡◌, ◌≢◌, ◌⊎◌, ◌<◌, true, false, String, ◌<>◌, ◌==◌, eq_iff, arith, has_prefix, Bool-cases, inl,
  inr,
}
use home_stack.Registry.{
  Service, is_enabled, resolved_host, routable_host, routable_url, start_interval,
}

-- A service has an address of its own: it is switched on, and its host is neither blank nor a
-- wildcard.
abbrev pub HasAddress : Service → String → Type 0
HasAddress svc parent_domain =
    (is_enabled svc ≡ true)
    × (resolved_host svc parent_domain ≢ "")
    × (has_prefix (resolved_host svc parent_domain) "*." ≡ false)

-- A service that has an address gets the https URL of its host, and every other service the URL "".
pub routable_url_cases :
    (svc : Service) (parent_domain : String)
    → (HasAddress svc parent_domain
        × (routable_url svc parent_domain ≡ "https://" <> resolved_host svc parent_domain))
      ⊎ ((¬ HasAddress svc parent_domain) × (routable_url svc parent_domain ≡ ""))
unfolding routable_url routable_host
routable_url_cases svc pd =
    let host = resolved_host svc pd in
    elim (Bool-cases (host == "")) [
      | inl blank ↦ inr (λ h. h.1 ((eq_iff host "").0 blank), simp blank)
      | inr named ↦ elim (Bool-cases (has_prefix host "*.")) [
        | inl wild ↦ inr (λ h. cc (h.2, wild), simp (named, wild))
        | inr plain ↦ elim (Bool-cases (is_enabled svc)) [
          | inl on ↦
              inl ((on, (λ e. ground (arith, eq_iff host "")), plain), simp (named, plain, on))
          | inr off ↦ inr (λ h. cc (h.0, off), simp (named, plain, off))
        ]
      ]
    ]

-- A scheduled task never gets an interval of zero.
pub start_interval-pos : (svc : Service) → 0 < start_interval svc
unfolding start_interval
start_interval-pos svc = ground arith
