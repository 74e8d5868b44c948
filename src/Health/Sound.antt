-- ===== src/Health/Sound.antt =====
-- main.go, `collectServices`: what the state "ok" of a service rests on.
use home_stack.Prelude.{
  ◌<>◌, ◌||◌, ltb, leb, ℕ, ◌≤◌, ◌<◌, arith, Bool, true, false, ◌≡◌, ◌≢◌, ◌⊎◌, inl, inr, refl,
  Option, none, some, not, if◌then◌else◌, String, ◌==◌, eq_iff, Map, lookup, Bool-cases,
  Option-cases,
}
use home_stack.Registry.{Service, is_enabled, routable_host}
use home_stack.Validity.Tokens.{==-eq-false, differ}
use home_stack.Http.{Server}
use home_stack.Health.{
  ServiceStatus, probed_status, launchd_of, LaunchdService, CheckStatus, service_status,
  derive_overall, any_failed, failed, launchd_verdict, warns,
}
use home_stack.Health.Incidents.{settle-ok}
use home_stack.Health.Routes.{Json, find_host, check_route}
use home_stack.Health.Network.{
  Network, Fetched, answered, bad_address, no_answer, check_port, credentials, check_http,
  get_caddy_config, config_or_nothing, body_of, probes,
}

-- A check that is made of a text that is there, and that did not fail, passed.
looked :
    (target : String) (c : CheckStatus)
    → failed (if not (target == "") then some c else none) ≡ false
    → target ≢ ""
    → c.passed ≡ true
looked target c fine there =
    let here = (==-eq-false target "").1 there in ground (arith, simp here at fine)

all_passed :
    (status : ServiceStatus)
    → derive_overall status ≡ "ok"
    → (launchd_verdict status.kind status.launchd ≡ warns false)
      × (failed status.port ≡ false)
      × (failed status.route ≡ false)
      × (failed status.http ≡ false)
unfolding derive_overall any_failed
all_passed status is_ok =
    let (calm, passed) = settle-ok _ _ _ is_ok in (calm, ground arith, ground arith, ground arith)

fetched :
    (f : Fetched)
    → ((code : ℕ) × (line : String) × (body : String) × (broken : Bool) × (f
          ≡ answered code line body broken))
      ⊎ (((text : String) × (f ≡ bad_address text)) ⊎ ((text : String) × (f ≡ no_answer text)))
fetched (answered code line body broken) = inl (code, line, body, broken, refl)
fetched (bad_address text) = inr (inl (text, refl))
fetched (no_answer text) = inr (inr (text, refl))

module _ (net : Network) (unmarshal : String → Option Json) (contains : String → String → Bool)
    (s : Server) (caddy_admin_url : String) where
  -- The port takes a connection.
  abbrev pub IsOpen : String → Type 0
  IsOpen target = net.dial target ≡ none

  -- A GET is answered with a code from 200 to 399.
  abbrev pub Answers : String → String → Type 0
  Answers name url =
      (code : ℕ) × (line : String) × (body : String) × (broken : Bool) × (net.fetch url
          (credentials net s (name == "admin"))
        ≡ answered code line body broken)
      × (200 ≤ code)
      × (code < 400)

  -- Caddy's admin interface gave its configuration with a code from 200 to 299, and `config` is as much
  -- of it as was read: all of it, up to the limit, or what came before the connection broke.
  abbrev pub IsRead : String → Type 0
  IsRead config =
      (code : ℕ) × (line : String) × (body : String) × (broken : Bool) × (net.fetch
          (caddy_admin_url <> "/config/") none
        ≡ answered code line body broken)
      × (200 ≤ code)
      × (code < 300)
      × (config ≡ (body_of net body broken).0)

  -- The host stands in what was read of Caddy's configuration: as one of its texts, or, where that is no
  -- JSON, as a part of it.
  abbrev pub IsRouted : String → Type 0
  IsRouted host =
      (config : String) × IsRead config
      × (((cfg : Json) × (unmarshal config ≡ some cfg) × (find_host cfg host ≡ true))
          ⊎ ((unmarshal config ≡ none) × (contains config host ≡ true)))

  -- launchd runs the service, or it is a scheduled one that rests.
  abbrev pub IsRunning : String → Option LaunchdService → Type 0
  IsRunning kind none = Unit
  IsRunning kind (some l) =
      (l.state ≡ "running") ⊎ ((l.state ≡ "not running") × (kind ≡ "scheduled"))

  check_port-IsOpen : (target : String) → (check_port net target).passed ≡ true → IsOpen target
  unfolding check_port
  check_port-IsOpen target fine = elim (Option-cases (net.dial target)) [
    | inl quiet ↦ quiet
    | inr (e, failed) ↦ absurd (cc (rw (failed, check_port) at fine))
  ]

  check_http-Answers :
      (name url : String)
      → (check_http net s url (name == "admin")).passed ≡ true
      → Answers name url
  unfolding check_http
  check_http-Answers name url fine =
      elim (fetched (net.fetch url (credentials net s (name == "admin")))) [
        | inl (code, line, body, broken, e) ↦
            let within = rw (e, check_http) at fine in
            (code, line, body, broken, e, ground arith, ground arith)
        | inr (inl (text, e)) ↦ absurd (cc (rw (e, check_http) at fine))
        | inr (inr (text, e)) ↦ absurd (cc (rw (e, check_http) at fine))
      ]

  checked :
      (config host : String)
      → (check_route unmarshal contains config host).passed ≡ true
      → (config ≢ "")
        × (((cfg : Json) × (unmarshal config ≡ some cfg) × (find_host cfg host ≡ true))
            ⊎ ((unmarshal config ≡ none) × (contains config host ≡ true)))
  unfolding check_route
  checked config host fine = elim (Bool-cases (config == "")) [
    | inl nothing ↦ absurd (cc (simp nothing at fine))
    | inr something ↦ (
      (==-eq-false config "").0 something,
      elim (Option-cases (unmarshal config)) [
        | inl garbled ↦ elim (Bool-cases (contains config host)) [
          | inl found ↦ inr (garbled, found)
          | inr lost ↦ absurd (cc (rw (something, garbled, check_route, lost) at fine))
        ]
        | inr (cfg, parsed) ↦ elim (Bool-cases (find_host cfg host)) [
          | inl found ↦ inl (cfg, parsed, found)
          | inr lost ↦ absurd (cc (rw (something, parsed, check_route, lost) at fine))
        ]
      ],
    )
  ]

  get_caddy_config-IsRead :
      (config_or_nothing net (get_caddy_config net caddy_admin_url) ≢ "")
      → IsRead (config_or_nothing net (get_caddy_config net caddy_admin_url))
  unfolding get_caddy_config
  get_caddy_config-IsRead something =
      elim (fetched (net.fetch (caddy_admin_url <> "/config/") none)) [
        | inl (code, line, body, broken, e) ↦ elim (Bool-cases (ltb code 200 || leb 300 code)) [
          | inl outside ↦ absurd (something (rw (e, get_caddy_config, outside) refl))
          | inr within ↦ (
            code,
            line,
            body,
            broken,
            e,
            ground arith,
            ground arith,
            rw (e, get_caddy_config, within) refl,
          )
        ]
        | inr (inl (text, e)) ↦ absurd (something (rw (e, get_caddy_config) refl))
        | inr (inr (text, e)) ↦ absurd (something (rw (e, get_caddy_config) refl))
      ]

  check_route-IsRouted :
      (host : String)
      → (check_route unmarshal contains
          (config_or_nothing net (get_caddy_config net caddy_admin_url))
          host).passed
        ≡ true
      → IsRouted host
  check_route-IsRouted host fine =
      let config = config_or_nothing net (get_caddy_config net caddy_admin_url) in
      let (something, stands) = checked config host fine in
      (config, get_caddy_config-IsRead something, stands)

  verdict-IsRunning :
      (kind : String) (l : Option LaunchdService)
      → launchd_verdict kind (launchd_of l) ≡ warns false
      → IsRunning kind l
  unfolding launchd_verdict
  verdict-IsRunning kind none calm = tt
  verdict-IsRunning kind (some l) calm =
      ground
        (arith, eq_iff l.state "running", eq_iff l.state "not running", eq_iff kind "scheduled")

  -- A service whose state is "ok" is in order as far as it is looked at: it is enabled; if launchd knows
  -- it, it runs, or rests as a scheduled one may; its upstream, if it has one, takes connections; the
  -- host it is routed by, if it has one, stands in what was read, which is not always all, of the
  -- configuration that Caddy gave with a code from 200 to 299; and the address of its health check, if it has one, was answered with a code from 200 to 399.
  pub ok_sound :
      (launchd : Map LaunchdService) (parent_domain name : String) (svc : Service)
      → (service_status
          (probes net unmarshal contains s caddy_admin_url)
          launchd
          parent_domain
          name
          svc).overall_state
        ≡ "ok"
      → (is_enabled svc ≡ true)
        × IsRunning svc.kind (lookup name launchd)
        × (svc.upstream ≢ "" → IsOpen svc.upstream)
        × (routable_host svc parent_domain ≢ "" → IsRouted (routable_host svc parent_domain))
        × (svc.health.http_url ≢ "" → Answers name svc.health.http_url)
  unfolding service_status derive_overall probes
  ok_sound launchd parent_domain name svc is_ok = elim (Bool-cases (is_enabled svc)) [
    | inr off ↦
        absurd (differ {s = "disabled"} {t = "disabled"} {u = "ok"} refl refl (simp off at is_ok))
    | inl on ↦
        let (calm, open_port, routed, answers) =
          all_passed
            (probed_status (probes net unmarshal contains s caddy_admin_url) launchd parent_domain
              name svc)
            (simp on at is_ok) in
        (
          on,
          verdict-IsRunning svc.kind (lookup name launchd) calm,
          λ there. check_port-IsOpen svc.upstream (looked svc.upstream _ open_port there),
          λ there.
              check_route-IsRouted (routable_host svc parent_domain)
                (looked (routable_host svc parent_domain) _ routed there),
          λ there.
              check_http-Answers name svc.health.http_url
                (looked svc.health.http_url _ answers there),
        )
  ]
