-- ===== src/Deploy/Ready.antt =====
-- registry.go, `Apply`, and engine.go, `syncSystem`: what both have checked before they write.
use home_stack.Prelude.{
  Bool, true, false, not, ◌≡◌, refl, sym, ap, ◌∙◌, ◌↔◌, String, ◌==◌, Bool-cases, inl, inr, Result,
  ok, err, bind_ok, ok_inj, refuse_if, raise,
}
use home_stack.Registry.{Registry}
use home_stack.Validate.{validate_identifier_prefix}
use home_stack.Artifacts.{GeneratedArtifacts}
use home_stack.Deploy.{
  Host, registry_path, is_missing, required_env, load_profile, check_prefix, generate,
  prepare_apply, prepare_sync, no_registry, prefix_refused,
}

required_env-ok :
    (getenv : String → String) (name value : String)
    → required_env getenv name ≡ ok value
    → ((getenv name == "") ≡ false) × (getenv name ≡ value)
required_env-ok getenv name value h = elim (Bool-cases (getenv name == "")) [
  | inl unset ↦ absurd (cc (rw unset at h))
  | inr is_set ↦ (is_set, ok_inj (rw is_set at h))
]

pub raise-ok {ℓ κ τ} :
    {E : Type ℓ} {F : Type κ} {A : Type τ} (f : E → F) (r : Result E A) (a : A)
    → raise f r ≡ ok a
    → r ≡ ok a
raise-ok f (ok b) a h = ap ok (ok_inj h)
raise-ok f (err e) a h = absurd (cc h)

refuse_if-ok : {E : Type 0} (b : Bool) (e : E) (u : Unit {0}) → refuse_if b e ≡ ok u → b ≡ false
refuse_if-ok false e u h = refl
refuse_if-ok true e u h = absurd (cc h)

module _ (h : Host) (bundle_dir profile : String) where
  -- What both have checked before they generate.
  abbrev pub IsReady : GeneratedArtifacts → Registry → Type 0
  IsReady a r =
      (is_missing (h.registries (registry_path h.getenv bundle_dir profile)) ≡ false)
      × (load_profile h bundle_dir profile ≡ ok r)
      × ((h.getenv "HOME_STACK_ACME_EMAIL" == "") ≡ false)
      × ((h.getenv "HOME_STACK_OWNER_HOME" == "") ≡ false)
      × ((h.getenv "HOME_STACK_PARENT_DOMAIN" == "") ≡ false)
      × (check_prefix h bundle_dir ≡ ok (h.getenv "HOME_STACK_IDENTIFIER_PREFIX"))
      × (generate h bundle_dir r profile (h.getenv "HOME_STACK_OWNER_HOME")
            (h.getenv "HOME_STACK_IDENTIFIER_PREFIX") (h.getenv "HOME_STACK_PARENT_DOMAIN")
            (h.getenv "HOME_STACK_ACME_EMAIL")
          ≡ ok a)

  checked_prefix :
      (id : String)
      → check_prefix h bundle_dir ≡ ok id
      → h.getenv "HOME_STACK_IDENTIFIER_PREFIX" ≡ id
  checked_prefix id p =
      let (first, got, p1) =
        bind_ok (required_env h.getenv "HOME_STACK_IDENTIFIER_PREFIX") _ id p in
      let (_, _, p2) =
        bind_ok (refuse_if (not (validate_identifier_prefix first)) prefix_refused) (λ _. ok first)
          id p1 in
      (required_env-ok h.getenv _ first got).1 ∙ ok_inj p2

  -- The steps of both, in whatever order they were taken.
  gathered :
      (a : GeneratedArtifacts) (r : Registry) (email owner_home parent_domain id : String)
      (u : Unit {0})
      → refuse_if
          (is_missing (h.registries (registry_path h.getenv bundle_dir profile)))
          no_registry
        ≡ ok u
      → load_profile h bundle_dir profile ≡ ok r
      → required_env h.getenv "HOME_STACK_ACME_EMAIL" ≡ ok email
      → required_env h.getenv "HOME_STACK_OWNER_HOME" ≡ ok owner_home
      → required_env h.getenv "HOME_STACK_PARENT_DOMAIN" ≡ ok parent_domain
      → check_prefix h bundle_dir ≡ ok id
      → generate h bundle_dir r profile owner_home id parent_domain email ≡ ok a
      → IsReady a r
  gathered a r email owner_home parent_domain id u present loaded mail owner domain prefix made =
      let (e1, e2) = required_env-ok h.getenv _ email mail in
      let (o1, o2) = required_env-ok h.getenv _ owner_home owner in
      let (d1, d2) = required_env-ok h.getenv _ parent_domain domain in
      let same = checked_prefix id prefix in
      let all : generate h bundle_dir r profile (h.getenv "HOME_STACK_OWNER_HOME")
            (h.getenv "HOME_STACK_IDENTIFIER_PREFIX") (h.getenv "HOME_STACK_PARENT_DOMAIN")
            (h.getenv "HOME_STACK_ACME_EMAIL")
          ≡ ok a =
        rw (e2, o2, d2, same) made in
      (refuse_if-ok _ no_registry u present, loaded, e1, o1, d1, prefix ∙ ap ok (sym same), all)

  pub prepare_apply-IsReady :
      (a : GeneratedArtifacts)
      → prepare_apply h bundle_dir profile ≡ ok a
      → (r : Registry) × IsReady a r
  unfolding prepare_apply
  prepare_apply-IsReady a p =
      let (u, present, p1) =
        bind_ok
          (refuse_if (is_missing (h.registries (registry_path h.getenv bundle_dir profile)))
            no_registry)
          _ a p in
      let (r, loaded, p2) = bind_ok (load_profile h bundle_dir profile) _ a p1 in
      let (_, mail, p3) = bind_ok (required_env h.getenv "HOME_STACK_ACME_EMAIL") _ a p2 in
      let (_, owner, p4) = bind_ok (required_env h.getenv "HOME_STACK_OWNER_HOME") _ a p3 in
      let (_, domain, p5) = bind_ok (required_env h.getenv "HOME_STACK_PARENT_DOMAIN") _ a p4 in
      let (_, prefix, made) = bind_ok (check_prefix h bundle_dir) _ a p5 in
      (r, gathered a r _ _ _ _ u present loaded mail owner domain prefix made)

  prepare_sync-IsReady :
      (a : GeneratedArtifacts)
      → prepare_sync h bundle_dir profile ≡ ok a
      → (r : Registry) × IsReady a r
  unfolding prepare_sync
  prepare_sync-IsReady a p =
      let (_, owner, p1) = bind_ok (required_env h.getenv "HOME_STACK_OWNER_HOME") _ a p in
      let (_, domain, p2) = bind_ok (required_env h.getenv "HOME_STACK_PARENT_DOMAIN") _ a p1 in
      let (_, prefix, p3) = bind_ok (check_prefix h bundle_dir) _ a p2 in
      let (u, present, p4) =
        bind_ok
          (refuse_if (is_missing (h.registries (registry_path h.getenv bundle_dir profile)))
            no_registry)
          _ a p3 in
      let (r, loaded, p5) = bind_ok (load_profile h bundle_dir profile) _ a p4 in
      let (_, mail, made) = bind_ok (required_env h.getenv "HOME_STACK_ACME_EMAIL") _ a p5 in
      (r, gathered a r _ _ _ _ u present loaded mail owner domain prefix made)

  prepare_apply_of_IsReady :
      (a : GeneratedArtifacts) (r : Registry)
      → IsReady a r
      → prepare_apply h bundle_dir profile ≡ ok a
  unfolding prepare_apply
  prepare_apply_of_IsReady a r (present, loaded, mail, owner, domain, prefix, made) =
      rw (present, loaded, mail, owner, domain, prefix, made) refl

  prepare_sync_of_IsReady :
      (a : GeneratedArtifacts) (r : Registry)
      → IsReady a r
      → prepare_sync h bundle_dir profile ≡ ok a
  unfolding prepare_sync
  prepare_sync_of_IsReady a r (present, loaded, mail, owner, domain, prefix, made) =
      rw (present, loaded, mail, owner, domain, prefix, made) refl

  pub prepare_sync-prepare_apply :
      (a : GeneratedArtifacts)
      → (prepare_sync h bundle_dir profile ≡ ok a) ↔ (prepare_apply h bundle_dir profile ≡ ok a)
  prepare_sync-prepare_apply a = (
    λ p. let (r, ready) = prepare_sync-IsReady a p in prepare_apply_of_IsReady a r ready,
    λ p. let (r, ready) = prepare_apply-IsReady a p in prepare_sync_of_IsReady a r ready,
  )
