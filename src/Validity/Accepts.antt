-- ===== src/Validity/Accepts.antt =====
-- engine.go, `Validate` accepts exactly the valid registries.
use home_stack.Prelude.{
  true, false, ◌≡◌, ◌≢◌, ◌↔◌, refl, String, ◌==◌, eq_iff, ok, All, Bool-cases, inl, inr, Map,
  lookup, List, [], ◌∷◌, Option-cases, Result-cases,
}
use home_stack.Registry.{Service, Registry, is_enabled, requires_auth_broker, auth_broker_service}
use home_stack.Validate.{
  invalid_display_name, invalid_kind, check_service, check_services, broker_dependents,
  check_broker_enabled, refuse_dependents, validate,
}
use home_stack.Validity.{IsValidService, BrokerServes, IsValid}
use home_stack.Validity.Tokens.{
  iff_trans, both_checks, wraps, validate_display_token_iff, ==-eq-false,
}
use home_stack.Validity.Fields.{
  check_identity_iff, check_lifecycle_iff, check_proxy_identity_iff, check_auth_iff,
  check_shape_iff, check_process_iff,
}

check_service_iff :
    (services : Map Service) (parent_domain name : String) (svc : Service)
    → (check_service services parent_domain name svc ≡ ok tt)
      ↔ IsValidService services parent_domain name svc
unfolding check_service
check_service_iff services pd name svc =
    iff_trans
      (both_checks _ _ (check_identity_iff name svc) (
        both_checks _ _ (check_lifecycle_iff svc) (
          both_checks _ _ (check_proxy_identity_iff svc) (
            both_checks _ _ (check_auth_iff services svc) (
              both_checks _ _
                (wraps _ invalid_display_name (validate_display_token_iff _ svc.display_name))
                (both_checks _ _ (wraps _ invalid_kind (validate_display_token_iff _ svc.kind))
                  (both_checks _ _ (check_shape_iff svc pd) (check_process_iff svc))))))))
      (
        λ (
          (named, (typed, (system, admin))),
          (
            lifecycle,
            (identity, (auth, (shown, (kind, (shape, (b, (w, (args, (env, manifest))))))))),
          ),
        ).
            record {
              named = named;
              typed = typed;
              kept = λ k. elim k [ inl e ↦ system e | inr e ↦ admin e ];
              lifecycle = lifecycle;
              identity = identity;
              auth = auth;
              labelled = (shown, kind);
              shape = shape;
              started = (b, w);
              args = args;
              env = env;
              manifest = manifest;
            },
        λ v. (
          (v.named, (v.typed, (λ e. v.kept (inl e), λ e. v.kept (inr e)))),
          (
            v.lifecycle,
            (
              v.identity,
              (
                v.auth,
                (
                  v.labelled.0,
                  (
                    v.labelled.1,
                    (v.shape, (v.started.0, (v.started.1, (v.args, (v.env, v.manifest))))),
                  ),
                ),
              ),
            ),
          ),
        ),
      )

check_services_iff :
    (services : Map Service) (parent_domain : String) (rest : Map Service)
    → (check_services services parent_domain rest ≡ ok tt)
      ↔ All (λ entry. IsValidService services parent_domain entry.0 entry.1) rest
unfolding check_services
check_services_iff services pd [] = (λ _. tt, λ _. refl)
check_services_iff services pd ((name, svc) ∷ rest) =
    let here = check_service_iff services pd name svc in
    let later = check_services_iff services pd rest in
    elim (Result-cases (check_service services pd name svc)) [
      | inl passed ↦
          rw (passed, check_services) (λ e. (here.0 passed, later.0 e), λ (v, vs). later.1 vs)
      | inr (e, failed) ↦ rw (failed, check_services) (λ h. cc, λ (v, vs). cc (here.1 v, failed))
    ]

-- No enabled service but the broker needs it.
abbrev IsUnneeded : Map Service → Type 0
IsUnneeded = All (λ entry.
    entry.0 ≢ auth_broker_service
    → is_enabled entry.1 ≡ true
    → requires_auth_broker entry.1 ≡ false)

broker_dependents_iff :
    (services : Map Service) → (broker_dependents services ≡ []) ↔ IsUnneeded services
unfolding broker_dependents
broker_dependents_iff [] = (λ _. tt, λ _. refl)
broker_dependents_iff ((name, svc) ∷ rest) =
    let later = broker_dependents_iff rest in
    elim (Bool-cases (name == auth_broker_service)) [
      | inl broker ↦
          rw broker (
            λ e. ((λ other _. absurd (other ((eq_iff _ _).0 broker))), later.0 e),
            λ h. later.1 h.1,
          )
      | inr other ↦ elim (Bool-cases (is_enabled svc)) [
        | inr off ↦ rw (other, off) (λ e. ((λ _ on. cc), later.0 e), λ h. later.1 h.1)
        | inl on ↦ elim (Bool-cases (requires_auth_broker svc)) [
          | inl needs ↦
              rw (other, on, needs) (λ h. cc, λ h. cc (h.0 ((==-eq-false _ _).0 other) refl))
          | inr free ↦ rw (other, on, free) (λ e. ((λ _ _. refl), later.0 e), λ h. later.1 h.1)
        ]
      ]
    ]

refuse_dependents_iff : (l : List String) → (refuse_dependents l ≡ ok tt) ↔ (l ≡ [])
refuse_dependents_iff [] = (λ _. refl, λ _. refl)
refuse_dependents_iff (n ∷ ns) = (λ h. cc, λ h. cc)

check_broker_enabled_iff :
    (services : Map Service) → (check_broker_enabled services ≡ ok tt) ↔ BrokerServes services
unfolding check_broker_enabled
check_broker_enabled_iff services = elim (Option-cases (lookup auth_broker_service services)) [
  | inl missing ↦ rw (missing, check_broker_enabled) (λ _ b e off. cc, λ _. refl)
  | inr (broker, found) ↦ elim (Bool-cases (is_enabled broker)) [
    | inl on ↦ rw (found, check_broker_enabled, on) (λ _ b e off. cc, λ _. refl)
    | inr off ↦
        rw (found, check_broker_enabled, off)
          (iff_trans (refuse_dependents_iff _)
            (iff_trans (broker_dependents_iff services) (λ h b e _. h, λ h. h broker refl off)))
  ]
]

-- `Validate` returns nil exactly when the registry is valid: each service has a legal name, type,
-- lifecycle, address, gate, texts, environment and manifest, and no enabled service needs an auth
-- broker that is switched off.
pub validate_iff :
    (r : Registry) (parent_domain : String)
    → (validate r parent_domain ≡ ok tt) ↔ IsValid r parent_domain
unfolding validate
validate_iff r pd =
    iff_trans
      (both_checks _ _ (check_services_iff r.services pd r.services)
        (check_broker_enabled_iff r.services))
      (λ (each, served). record { each = each; served = served }, λ v. (v.each, v.served))
