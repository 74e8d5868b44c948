-- ===== src/Http/Guards.antt =====
-- main.go, `proxyIdentity`, `withAuth` and `withMutation`: who gets to a handler.
use home_stack.Prelude.{
  true, ◌≡◌, ◌≢◌, ◌↔◌, ◌⊎◌, [], ◌∷◌, Option, some, String, ◌==◌, refl, inl, inr, Bool-cases, ap₂,
  Option-cases, arith, eq_iff, if◌then◌else◌,
}
use home_stack.Validity.Tokens.{==-eq-false}
use home_stack.Http.{
  Request, Server, Reply, get, proxy_identity, credentials_match, with_auth, refusal,
}

-- The ingress named a user: it showed the secret that is configured, and a header with a name.
abbrev pub IsIdentified : Server → Request → Type 0
IsIdentified s r =
    (s.proxy_auth_secret ≢ "")
    × (get "X-Home-Stack-Proxy-Auth" r ≡ s.proxy_auth_secret)
    × ((get "X-Webauth-User" r ≢ "") ⊎ (get "Remote-User" r ≢ ""))

-- A request has an identity exactly when the ingress named a user.
pub proxy_identity_iff : (s : Server) (r : Request) → (proxy_identity s r ≢ "") ↔ IsIdentified s r
unfolding proxy_identity
proxy_identity_iff s r =
    let shown = get "X-Home-Stack-Proxy-Auth" r in
    let tailnet = get "X-Webauth-User" r in
    (
      λ h. ground (
        arith,
        eq_iff s.proxy_auth_secret "",
        eq_iff shown s.proxy_auth_secret,
        eq_iff tailnet "",
      ),
      λ h. ground (
        arith,
        eq_iff s.proxy_auth_secret "",
        eq_iff shown s.proxy_auth_secret,
        eq_iff tailnet "",
      ),
    )

module _ (basic_auth : Request → Option (String × String)) where
  -- A password is configured, and the request has the user's name and that password.
  abbrev pub HasPassword : Server → Request → Type 0
  HasPassword s r =
      (s.admin_password ≢ "") × (basic_auth r ≡ some (s.admin_username, s.admin_password))

  abbrev pub IsAuthenticated : Server → Request → Type 0
  IsAuthenticated s r = IsIdentified s r ⊎ HasPassword s r

  credentials_match_iff :
      (s : Server) (r : Request)
      → (credentials_match basic_auth s r ≡ true)
        ↔ (basic_auth r ≡ some (s.admin_username, s.admin_password))
  unfolding credentials_match
  credentials_match_iff s r = elim (Option-cases (basic_auth r)) [
    | inl e ↦ rw (e, credentials_match) (λ h. cc, λ h. cc)
    | inr ((username, password), e) ↦
        rw (e, credentials_match)
          (
            λ h.
                ap₂ (λ u p. some (u, p)) ((eq_iff username s.admin_username).0 (ground arith))
                  ((eq_iff password s.admin_password).0 (ground arith)),
            λ h.
                let u : username ≡ s.admin_username = cc in
                let p : password ≡ s.admin_password = cc in
                ground (
                  arith,
                  (eq_iff username s.admin_username).1 u,
                  (eq_iff password s.admin_password).1 p,
                ),
          )
  ]

  -- Whether a request is logged in is decided by the texts it has.
  pub login_cases : (s : Server) (r : Request) → IsAuthenticated s r ⊎ (IsAuthenticated s r → ⊥)
  login_cases s r =
      let known = proxy_identity_iff s r in
      let matches = credentials_match_iff s r in
      elim (Bool-cases (proxy_identity s r == "")) [
        | inr e ↦ inl (inl (known.0 ((==-eq-false (proxy_identity s r) "").0 e)))
        | inl e ↦
            let unnamed : IsIdentified s r → ⊥ =
              λ id. known.1 id ((eq_iff (proxy_identity s r) "").0 e) in
            elim (Bool-cases (s.admin_password == "")) [
              | inl f ↦ inr (λ a. elim a [
                | inl id ↦ unnamed id
                | inr (set, _) ↦ set ((eq_iff s.admin_password "").0 f)
              ])
              | inr f ↦ elim (Bool-cases (credentials_match basic_auth s r)) [
                | inl g ↦ inl (inr ((==-eq-false s.admin_password "").0 f, matches.0 g))
                | inr g ↦ inr (λ a. elim a [
                  | inl id ↦ unnamed id
                  | inr (_, given) ↦ let m = matches.1 given in ground arith
                ])
              ]
            ]
      ]

-- The answer to a request that does not log in.
abbrev pub login_refusal {ℓ} : {A : Type ℓ} → Server → Reply A
login_refusal s =
    if s.admin_password == ""
    then refusal 503 []
        "admin password is not configured; set HOME_STACK_ADMIN_PASSWORD in env.local"
    else refusal 401
        (("WWW-Authenticate", "Basic realm=\"home-stack admin\", charset=\"UTF-8\"") ∷ [])
        "authentication required"

module _ {ℓ} {A : Type ℓ} (basic_auth : Request → Option (String × String)) where
  -- A request goes on to the handler when the ingress named a user or it has the user's name and
  -- the password that is configured, and otherwise it is refused: with the status 503 if there is no
  -- password, and 401 if there is one.
  pub with_auth_cases :
      (s : Server) (next : Request → Reply A) (r : Request)
      → (IsAuthenticated basic_auth s r → with_auth basic_auth s next r ≡ next r)
        × ((IsAuthenticated basic_auth s r → ⊥) → with_auth basic_auth s next r ≡ login_refusal s)
  unfolding with_auth
  with_auth_cases s next r =
      let known = proxy_identity_iff s r in
      let matches = credentials_match_iff basic_auth s r in
      let named = eq_iff (proxy_identity s r) "" in
      elim (Bool-cases (proxy_identity s r == "")) [
        | inr e ↦ simp e (
          λ _. refl,
          λ outsider. absurd (outsider (inl (known.0 ((==-eq-false (proxy_identity s r) "").0 e)))),
        )
        | inl e ↦ simp e (elim (Bool-cases (s.admin_password == "")) [
          | inl f ↦ simp f (
            λ a. absurd (elim a [
              | inl id ↦ known.1 id (named.0 e)
              | inr (set, _) ↦ set ((eq_iff s.admin_password "").0 f)
            ]),
            λ _. refl,
          )
          | inr f ↦ simp f (elim (Bool-cases (credentials_match basic_auth s r)) [
            | inl g ↦ simp g (
              λ _. refl,
              λ outsider.
                  absurd (outsider (inr ((==-eq-false s.admin_password "").0 f, matches.0 g))),
            )
            | inr g ↦ simp g (
              λ a. absurd (elim a [
                | inl id ↦ known.1 id (named.0 e)
                | inr (_, given) ↦ let m = matches.1 given in ground arith
              ]),
              λ _. refl,
            )
          ])
        ])
      ]

module _ (basic_auth : Request → Option (String × String)) where
  password_only :
      (s : Server) (r : Request)
      → (s.proxy_auth_secret ≡ "") ⊎ (get "X-Home-Stack-Proxy-Auth" r ≢ s.proxy_auth_secret)
      → IsAuthenticated basic_auth s r
      → HasPassword basic_auth s r
  password_only s r unproven (inr p) = p
  password_only s r (inl none_set) (inl (set, _, _)) = absurd (set none_set)
  password_only s r (inr wrong) (inl (_, shown, _)) = absurd (wrong shown)

module _ {ℓ} {A : Type ℓ} (basic_auth : Request → Option (String × String)) where
  -- Without the secret of the ingress, or where none is configured, the headers that name a user
  -- change nothing: the request goes on to the handler if it has the user's name and the password that
  -- is configured, and is refused otherwise.
  pub unproven_identity :
      (s : Server) (next : Request → Reply A) (r : Request)
      → (s.proxy_auth_secret ≡ "") ⊎ (get "X-Home-Stack-Proxy-Auth" r ≢ s.proxy_auth_secret)
      → (HasPassword basic_auth s r → with_auth basic_auth s next r ≡ next r)
        × ((HasPassword basic_auth s r → ⊥) → with_auth basic_auth s next r ≡ login_refusal s)
  unproven_identity s next r unproven =
      let (goes_on, stays) = with_auth_cases basic_auth s next r in
      (
        λ p. goes_on (inr p),
        λ none_given. stays (λ a. none_given (password_only basic_auth s r unproven a)),
      )
