-- ===== src/Http/Access.antt =====
-- main.go: what the table of routes lets through to the handlers.
use home_stack.Prelude.{
  ℕ, true, ◌≡◌, ◌≢◌, ◌↔◌, Option, none, some, String, ◌==◌, Map, refl, inl, inr, Bool-cases,
  Option-cases, arith, eq_iff, All, All-lookup, lookup, ap, subst, equal_fold,
}
use home_stack.Validity.Tokens.{==-eq-false}
use home_stack.Http.{
  Request, Server, Reply, get, with_method, with_auth, valid_origin, names_host, with_mutation,
  refusal, Endpoint, routes, portal_catalog_path, portal_status_path, action,
}
use home_stack.Http.Guards.{IsAuthenticated, with_auth_cases, login_cases, login_refusal}

module _ (url_host : String → Option String) where
  -- The page that made the request, as far as its headers tell, is on the host of the request.
  abbrev IsFrom : String → Request → Type 0
  IsFrom url r = (host : String) × (url_host url ≡ some host) × (equal_fold host r.host ≡ true)

  abbrev pub IsSameOrigin : Request → Type 0
  IsSameOrigin r =
      (get "Origin" r ≢ "" → IsFrom (get "Origin" r) r)
      × (get "Origin" r ≡ "" → get "Referer" r ≢ "" → IsFrom (get "Referer" r) r)

  names_host_iff : (url : String) (r : Request) → (names_host url_host url r ≡ true) ↔ IsFrom url r
  unfolding names_host
  names_host_iff url r = elim (Option-cases (url_host url)) [
    | inl e ↦ rw (e, names_host) (λ h. cc, λ (host, found, _). cc)
    | inr (host, e) ↦
        rw (e, names_host)
          (λ h. (host, refl, h), λ (other, found, same). let k : host ≡ other = cc in rw k same)
  ]

  valid_origin_iff : (r : Request) → (valid_origin url_host r ≡ true) ↔ IsSameOrigin r
  unfolding valid_origin
  valid_origin_iff r =
      let origin = names_host_iff (get "Origin" r) r in
      let referer = names_host_iff (get "Referer" r) r in
      elim (Bool-cases (get "Origin" r == "")) [
        | inr e ↦ simp e (
          λ h. (λ _. origin.0 h, λ no. absurd ((==-eq-false _ _).0 e no)),
          λ h. origin.1 (h.0 ((==-eq-false _ _).0 e)),
        )
        | inl e ↦ simp e (elim (Bool-cases (get "Referer" r == "")) [
          | inr f ↦ simp f (
            λ h. (λ some. absurd (some ((eq_iff _ _).0 e)), λ _ _. referer.0 h),
            λ h. referer.1 (h.1 ((eq_iff _ _).0 e) ((==-eq-false _ _).0 f)),
          )
          | inl f ↦ simp f (
            λ h. (
              λ some. absurd (some ((eq_iff _ _).0 e)),
              λ _ some. absurd (some ((eq_iff _ _).0 f)),
            ),
            λ h. refl,
          )
        ])
      ]

module _ (basic_auth : Request → Option (String × String)) (url_host : String → Option String) where
  -- What an action takes: a login, the header of Admin's pages, no other origin, and a POST.
  abbrev pub MayMutate : Server → Request → Type 0
  MayMutate s r =
      IsAuthenticated basic_auth s r
      × (get "X-Home-Stack-Admin" r ≡ "1")
      × IsSameOrigin url_host r
      × (r.method ≡ "POST")

module _ {ℓ} {A : Type ℓ} (basic_auth : Request → Option (String × String))
    (url_host : String → Option String) (handle : Endpoint → Request → Reply A) where
  abbrev Guarded : Server → String × (Request → Reply A) → Request → Type ℓ
  Guarded s (pattern, handler) r =
      pattern ≢ portal_catalog_path → pattern ≢ portal_status_path → handler r ≡ login_refusal s

  routes-Guarded :
      (s : Server) (r : Request)
      → (IsAuthenticated basic_auth s r → ⊥)
      → All (λ route. Guarded s route r) (routes basic_auth url_host handle s)
  unfolding routes
  routes-Guarded s r outsider =
      let refused : (next : Request → Reply A) → with_auth basic_auth s next r ≡ login_refusal s =
        λ next. (with_auth_cases basic_auth s next r).1 outsider in
      (
        λ public _. absurd (public refl),
        (
          λ _ public. absurd (public refl),
          (
            λ _ _. refused _,
            (
              λ _ _. refused _,
              (
                λ _ _. refused _,
                (
                  λ _ _. refused _,
                  (
                    λ _ _. refused _,
                    (
                      λ _ _. refused _,
                      (
                        λ _ _. refused _,
                        (
                          λ _ _. refused _,
                          (λ _ _. refused _, (λ _ _. refused _, (λ _ _. refused _, tt))),
                        ),
                      ),
                    ),
                  ),
                ),
              ),
            ),
          ),
        ),
      )

  -- Whoever is not logged in gets the login refusal from every route but the portal's two.
  pub private_routes :
      (s : Server) (r : Request) (pattern : String) (handler : Request → Reply A)
      → lookup pattern (routes basic_auth url_host handle s) ≡ some handler
      → pattern ≢ portal_catalog_path
      → pattern ≢ portal_status_path
      → (IsAuthenticated basic_auth s r → ⊥)
      → handler r ≡ login_refusal s
  private_routes s r pattern handler found not_catalog not_status outsider =
      All-lookup (λ route. Guarded s route r) (routes basic_auth url_host handle s) pattern handler
        (routes-Guarded s r outsider) found not_catalog not_status

  abbrev IsRefused : Reply A → Type ℓ
  IsRefused answer =
      (status : ℕ) × (header : Map String) × (message : String) × (answer
        ≡ refusal status header message)

  login_refusal-IsRefused : (s : Server) → IsRefused (login_refusal s)
  login_refusal-IsRefused s = elim (Bool-cases (s.admin_password == "")) [
    | inl e ↦ simp e (_, _, _, refl)
    | inr e ↦ simp e (_, _, _, refl)
  ]

  -- The chain of guards before an action.
  action_guards :
      (s : Server) (r : Request) (next : Request → Reply A)
      → (MayMutate basic_auth url_host s r
          → with_auth basic_auth s (with_mutation url_host (with_method "POST" next)) r ≡ next r)
        × ((MayMutate basic_auth url_host s r → ⊥)
            → IsRefused
                (with_auth basic_auth s (with_mutation url_host (with_method "POST" next)) r))
  unfolding with_mutation with_method
  action_guards s r next =
      let after =
        with_auth_cases basic_auth s (with_mutation url_host (with_method "POST" next)) r in
      let same = valid_origin_iff url_host r in
      elim (login_cases basic_auth s r) [
        | inr outsider ↦
            (λ m. absurd (outsider m.0), λ _. rw (after.1 outsider) (login_refusal-IsRefused s))
        | inl insider ↦
            rw (after.0 insider) (elim (Bool-cases (get "X-Home-Stack-Admin" r == "1")) [
              | inr e ↦ simp e (λ m. absurd ((==-eq-false _ _).0 e m.1), λ _. (_, _, _, refl))
              | inl e ↦ simp e (elim (Bool-cases (valid_origin url_host r)) [
                | inr f ↦
                    simp f
                      (λ m. let valid = same.1 m.2 in absurd (ground arith), λ _. (_, _, _, refl))
                | inl f ↦ simp f (elim (Bool-cases (r.method == "POST")) [
                  | inr g ↦ simp g (λ m. absurd ((==-eq-false _ _).0 g m.3), λ _. (_, _, _, refl))
                  | inl g ↦ simp g (
                    λ _. refl,
                    λ no. absurd (no (insider, (eq_iff _ _).0 e, same.0 f, (eq_iff _ _).0 g)),
                  )
                ])
              ])
            ])
      ]

  -- The route of the actions calls its handler for a request that is logged in, has the header of
  -- Admin's pages, comes from no other origin and is a POST, and refuses every other request.
  pub actions_route :
      (s : Server) (r : Request) (handler : Request → Reply A)
      → lookup "/api/actions" (routes basic_auth url_host handle s) ≡ some handler
      → (MayMutate basic_auth url_host s r → handler r ≡ handle action r)
        × ((MayMutate basic_auth url_host s r → ⊥) → IsRefused (handler r))
  unfolding routes with_auth lookup
  actions_route s r handler found =
      let here =
        with_auth basic_auth s (with_mutation url_host (with_method "POST" (handle action))) in
      let same : here ≡ handler = ap (λ o. elim o [ none ↦ here | some h ↦ h ]) found in
      subst
        (λ h.
          (MayMutate basic_auth url_host s r → h r ≡ handle action r)
          × ((MayMutate basic_auth url_host s r → ⊥) → IsRefused (h r)))
        same (action_guards s r (handle action))
