-- ===== src/Validity/Fields.antt =====
-- engine.go, the checks of one service's fields against their meaning.
use home_stack.Prelude.{
  Bool, true, false, ◌≡◌, ◌≢◌, ◌↔◌, ◌⊎◌, refl, String, ◌==◌, eq_iff, arith, Result, ok, err, ◌>>◌,
  codes, All, Bool-cases, inl, inr, not, ◌||◌, if◌then◌else◌, Map, lookup, List, [], ◌∷◌, any,
  Option, none, some, Option-cases,
}
use home_stack.Prelude.Regex.Language.{Matches}
use home_stack.Registry.{
  Service, InstallSpec, is_enabled, requires_auth_broker, auth_broker_service,
}
use home_stack.Validate.{
  service_name_pattern, env_key_pattern, is_control, install_methods, check_identity,
  check_lifecycle, check_proxy_identity, check_broker, check_auth, check_host, check_address,
  check_proxy_address, check_shape, check_args, check_env, check_process, validate_install,
  install_fields, wrapped, validate_token, invalid_release, invalid_binary, invalid_working_dir,
  TokenError, invalid_upstream, invalid_root, unsupported_type, ServiceError,
  install_method_github_release,
}
use home_stack.Validity.{
  OneOf, Lacks, IsToken, IsHost, IsOutside, HasSubdomain, HasHost, HasShape, HasBroker, HasAuth,
  HasProxyIdentity, IsEnvEntry, HasManifest,
}
use home_stack.Validity.Tokens.{
  iff_trans, both_checks, refuses, wraps, ==-eq-false, match-eq-false, optional_token_iff,
  required-IsToken_iff, differ, IsCaddyToken-iff, validate_host_iff, validate_subdomain_iff,
  overlaps_iff,
}

not-eq-false : (b : Bool) → (not b ≡ false) ↔ (b ≡ true)
not-eq-false b = ground arith

pub any_iff : (s : String) (l : List String) → (any (λ t. s == t) l ≡ true) ↔ OneOf s l
any_iff s [] = (λ h. cc, λ h. absurd h)
any_iff s (t ∷ l) = ground (arith, eq_iff s t, any_iff s l)

pub check_identity_iff :
    (name : String) (svc : Service)
    → (check_identity name svc ≡ ok tt) ↔ (
        Matches service_name_pattern (codes name)
        × ((svc.type ≢ "")
            × (((svc.type ≡ "system" → is_enabled svc ≡ true))
                × (name ≡ "admin" → is_enabled svc ≡ true))))
unfolding check_identity
check_identity_iff name svc =
    both_checks _ _ (refuses _ _ (match-eq-false service_name_pattern name)) (
      both_checks _ _ (refuses _ _ (==-eq-false svc.type "")) (
        both_checks _ _ (refuses _ _ (ground (arith, eq_iff svc.type "system")))
          (refuses _ _ (ground (arith, eq_iff name "admin")))))

pub check_lifecycle_iff :
    (svc : Service)
    → (check_lifecycle svc ≡ ok tt)
      ↔ OneOf svc.lifecycle ("" ∷ "managed" ∷ "external" ∷ "custom" ∷ [])
unfolding check_lifecycle
check_lifecycle_iff svc = ground (
  arith,
  eq_iff svc.lifecycle "",
  eq_iff svc.lifecycle "managed",
  eq_iff svc.lifecycle "external",
  eq_iff svc.lifecycle "custom",
)

pub check_proxy_identity_iff :
    (svc : Service) → (check_proxy_identity svc ≡ ok tt) ↔ HasProxyIdentity svc
unfolding check_proxy_identity
check_proxy_identity_iff svc = ground (
  arith,
  eq_iff svc.proxy_identity "",
  eq_iff svc.proxy_identity "upstream",
  eq_iff svc.type "proxy",
  eq_iff svc.type "split",
)

pub check_broker_iff :
    (auth : String) (services : Map Service)
    → (check_broker auth (lookup auth_broker_service services) ≡ ok tt) ↔ HasBroker services
unfolding check_broker
check_broker_iff auth services = elim (Option-cases (lookup auth_broker_service services)) [
  | inl missing ↦ rw missing (λ h. cc, λ h. cc)
  | inr (b, found) ↦ rw found (
      iff_trans (refuses _ _ (==-eq-false b.upstream ""))
        (λ h. (b, refl, h), λ (c, same, h) e. h (cc)))
]

pub check_auth_iff :
    (services : Map Service) (svc : Service)
    → (check_auth services svc ≡ ok tt) ↔ HasAuth services svc
unfolding check_auth requires_auth_broker
check_auth_iff services svc = ground (
  arith,
  check_broker_iff svc.auth services,
  eq_iff svc.auth "",
  eq_iff svc.auth "none",
  eq_iff svc.auth "tailnet",
  eq_iff svc.auth "sso",
  eq_iff svc.auth "tailnet-or-sso",
  eq_iff svc.subdomain "",
  eq_iff svc.host "",
)

pub check_host_iff :
    (svc : Service) (parent_domain : String)
    → (check_host svc parent_domain ≡ ok tt) ↔ (IsHost svc.host × IsOutside svc.host parent_domain)
unfolding check_host
check_host_iff svc pd =
    both_checks _ _ (validate_host_iff svc.host) (refuses _ _ (overlaps_iff svc.host pd))

-- The part of an address check that follows the refusal of two addresses.
abbrev Addressed : Service → String → Type 0
Addressed svc pd = HasSubdomain svc ⊎ HasHost svc pd

pub check_address_iff :
    (svc : Service) (parent_domain : String)
    → (check_address svc parent_domain ≡ ok tt) ↔ Addressed svc parent_domain
unfolding check_address
check_address_iff svc pd = ground (
  arith,
  check_host_iff svc pd,
  validate_subdomain_iff svc.subdomain,
  eq_iff svc.subdomain "",
  eq_iff svc.host "",
)

pub check_proxy_address_iff :
    (svc : Service) (parent_domain : String)
    → (check_proxy_address svc parent_domain ≡ ok tt)
      ↔ (((svc.subdomain ≡ "") × (svc.host ≡ "")) ⊎ HasSubdomain svc ⊎ HasHost svc parent_domain)
unfolding check_proxy_address
check_proxy_address_iff svc pd = ground (
  arith,
  check_host_iff svc pd,
  validate_subdomain_iff svc.subdomain,
  eq_iff svc.subdomain "",
  eq_iff svc.host "",
)

not_bare :
    {s : String} → (s == "system" || s == "task") ≡ false → ¬ OneOf s ("system" ∷ "task" ∷ [])
not_bare {s} h bare = ground (arith, eq_iff s "system", eq_iff s "task")

-- The `switch` on the type, over what the checks of each branch mean.
module _ (type : String) {Split Static Proxy : Type 0}
    (split static proxy : Result ServiceError (Unit {0})) (split_iff : (split ≡ ok tt) ↔ Split)
    (static_iff : (static ≡ ok tt) ↔ Static) (proxy_iff : (proxy ≡ ok tt) ↔ Proxy) where
  switch_iff :
      ((if type == "system" || type == "task"
          then ok tt
          else if type == "split"
          then split
          else if type == "static"
          then static
          else if type == "proxy"
          then proxy
          else err (unsupported_type type))
        ≡ ok tt)
      ↔ (OneOf type ("system" ∷ "task" ∷ [])
          ⊎ ((type ≡ "split") × Split)
          ⊎ ((type ≡ "static") × Static)
          ⊎ ((type ≡ "proxy") × Proxy))
  switch_iff = elim (Bool-cases (type == "system" || type == "task")) [
    | inl bare ↦
        rw bare (λ _. inl (ground (arith, eq_iff type "system", eq_iff type "task")), λ _. refl)
    | inr routed ↦ rw routed (elim (Bool-cases (type == "split")) [
      | inl here ↦ rw here (
        λ s. inr (inl ((eq_iff _ _).0 here, split_iff.0 s)),
        λ c. elim c [
          | inl bare ↦ absurd (not_bare routed bare)
          | inr (inl (e, s)) ↦ split_iff.1 s
          | inr (inr (inl (e, s))) ↦ absurd (differ refl ((eq_iff _ _).0 here) e)
          | inr (inr (inr (e, s))) ↦ absurd (differ refl ((eq_iff _ _).0 here) e)
        ],
      )
      | inr other ↦ rw other (elim (Bool-cases (type == "static")) [
        | inl here ↦ rw here (
          λ s. inr (inr (inl ((eq_iff _ _).0 here, static_iff.0 s))),
          λ c. elim c [
            | inl bare ↦ absurd (not_bare routed bare)
            | inr (inl (e, s)) ↦ absurd (differ refl ((eq_iff _ _).0 here) e)
            | inr (inr (inl (e, s))) ↦ static_iff.1 s
            | inr (inr (inr (e, s))) ↦ absurd (differ refl ((eq_iff _ _).0 here) e)
          ],
        )
        | inr later ↦ rw later (elim (Bool-cases (type == "proxy")) [
          | inl here ↦ rw here (
            λ s. inr (inr (inr ((eq_iff _ _).0 here, proxy_iff.0 s))),
            λ c. elim c [
              | inl bare ↦ absurd (not_bare routed bare)
              | inr (inl (e, s)) ↦ absurd (differ refl ((eq_iff _ _).0 here) e)
              | inr (inr (inl (e, s))) ↦ absurd (differ refl ((eq_iff _ _).0 here) e)
              | inr (inr (inr (e, s))) ↦ proxy_iff.1 s
            ],
          )
          | inr unknown ↦ rw unknown (
            λ s. cc,
            λ c. elim c [
              | inl bare ↦ absurd (not_bare routed bare)
              | inr (inl (e, s)) ↦ absurd ((==-eq-false _ _).0 other e)
              | inr (inr (inl (e, s))) ↦ absurd ((==-eq-false _ _).0 later e)
              | inr (inr (inr (e, s))) ↦ absurd ((==-eq-false _ _).0 unknown e)
            ],
          )
        ])
      ])
    ])
  ]

pub check_shape_iff :
    (svc : Service) (parent_domain : String)
    → (check_shape svc parent_domain ≡ ok tt) ↔ HasShape svc parent_domain
unfolding check_shape
check_shape_iff svc pd =
    let upstream = wraps _ invalid_upstream (IsCaddyToken-iff "upstream" svc.upstream) in
    let root = wraps _ invalid_root (IsCaddyToken-iff "root" svc.root) in
    iff_trans
      (switch_iff svc.type _ _ _
        (both_checks _ _ (check_address_iff svc pd) (both_checks _ _ upstream root))
        (both_checks _ _ (check_address_iff svc pd) root)
        (both_checks _ _ (check_proxy_address_iff svc pd) upstream))
      (ground arith, ground arith)

pub check_args_iff : (args : List String) → (check_args args ≡ ok tt) ↔ All (Lacks is_control) args
unfolding check_args
check_args_iff [] = (λ h. tt, λ h. refl)
check_args_iff (a ∷ args) =
    both_checks _ _ (wraps _ _ (optional_token_iff "arg" a)) (check_args_iff args)

pub check_env_iff : (env : Map String) → (check_env env ≡ ok tt) ↔ All IsEnvEntry env
unfolding check_env
check_env_iff [] = (λ h. tt, λ h. refl)
check_env_iff ((k, v) ∷ env) =
    iff_trans
      (both_checks _ _ (refuses _ _ (match-eq-false env_key_pattern k)) (
        both_checks _ _ (refuses _ _ (λ h. h, λ h. h))
          (both_checks _ _ (wraps _ _ (optional_token_iff "env value" v)) (check_env_iff env))))
      (λ (m, (p, (t, r))). ((m, p, t), r), λ ((m, p, t), r). (m, (p, (t, r))))

method_iff :
    (i : InstallSpec)
    → (not (any (λ m. i.method == m) install_methods) ≡ false) ↔ OneOf i.method install_methods
method_iff i = iff_trans (not-eq-false _) (any_iff i.method install_methods)

release_iff :
    (i : InstallSpec)
    → ((if i.method == install_method_github_release
          then wrapped (validate_token "install.asset" i.asset false) invalid_release
            >> wrapped (validate_token "install.binary" i.binary false) invalid_release
          else ok tt)
        ≡ ok tt)
      ↔ (i.method ≡ install_method_github_release → IsToken i.asset × IsToken i.binary)
release_iff i = elim (Bool-cases (i.method == install_method_github_release)) [
  | inl same ↦ rw same (
      iff_trans
        (both_checks _ _ (wraps _ _ (required-IsToken_iff "install.asset" i.asset))
          (wraps _ _ (required-IsToken_iff "install.binary" i.binary)))
        (λ h _. h, λ h. h ((eq_iff _ _).0 same)))
  | inr other ↦ rw other (λ _ e. absurd ((==-eq-false _ _).0 other e), λ _. refl)
]

install_fields_iff :
    (i : InstallSpec)
    → (install_fields i ≡ ok tt) ↔ (
        IsToken i.source
        × (Lacks is_control i.pin
            × (Lacks is_control i.version_cmd
                × (i.method ≡ install_method_github_release → IsToken i.asset × IsToken i.binary))))
unfolding install_fields
install_fields_iff i =
    both_checks _ _ (wraps _ _ (required-IsToken_iff "install.source" i.source)) (
      both_checks _ _ (wraps _ _ (optional_token_iff "install.pin" i.pin)) (
        both_checks _ _ (wraps _ _ (optional_token_iff "install.version_cmd" i.version_cmd))
          (release_iff i)))

pub validate_install_iff : (i : Option InstallSpec) → (validate_install i ≡ ok tt) ↔ HasManifest i
unfolding validate_install
validate_install_iff none = (λ h. tt, λ h. refl)
validate_install_iff (some i) =
    iff_trans (both_checks _ _ (refuses _ _ (method_iff i)) (install_fields_iff i))
      (λ (m, (s, (p, (v, r)))). (m, s, p, v, r), λ (m, s, p, v, r). (m, (s, (p, (v, r)))))

-- A field that is checked only where it is set.
set_token_iff :
    (field value : String) (f : TokenError → ServiceError)
    → ((if not (value == "") then wrapped (validate_token field value true) f else ok tt) ≡ ok tt)
      ↔ Lacks is_control value
set_token_iff field value f = elim (Bool-cases (value == "")) [
  | inl blank ↦ rw blank (λ _. rw ((eq_iff value "").0 blank) tt, λ _. refl)
  | inr full ↦ rw full (wraps _ f (optional_token_iff field value))
]

pub check_process_iff :
    (svc : Service)
    → (check_process svc ≡ ok tt) ↔ (
        Lacks is_control svc.binary
        × (Lacks is_control svc.working_dir
            × (All (Lacks is_control) svc.args
                × (All IsEnvEntry svc.env × HasManifest svc.install))))
unfolding check_process
check_process_iff svc = both_checks _ _ (set_token_iff "binary" svc.binary invalid_binary) (
    both_checks _ _ (set_token_iff "working_dir" svc.working_dir invalid_working_dir) (
      both_checks _ _ (check_args_iff svc.args)
        (both_checks _ _ (check_env_iff svc.env) (validate_install_iff svc.install))))
