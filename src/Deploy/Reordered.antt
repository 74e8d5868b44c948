-- ===== src/Deploy/Reordered.antt =====
-- engine.go, `loadRegistry`, when the YAML library gives the same map in another order of iteration.
use home_stack.Prelude.{
  false, ◌≡◌, refl, ap, subst, ◌∙◌, Permᴰ, Option, some, String, ◌==◌, HasDistinctKeys, ok, ok_inj,
  Bool-cases, Option-cases, Outcome-cases, inl, inr, raise,
}
use home_stack.Registry.{Registry}
use home_stack.Validate.{validate}
use home_stack.Validity.Order.{validate-perm}
use home_stack.Edits.{File, missing, unreadable, holds, System, check_loaded, load_registry}
use home_stack.Deploy.{Host, not_loaded, registry_path, load_profile}
use home_stack.Deploy.Ready.{raise-ok}

-- Another parse of a text gives the same map, in some order.
abbrev pub IsReordering : System → (String → Option Registry) → Type 0
IsReordering sys parse =
    (text : String) (r : Registry)
    → sys.unmarshal text ≡ some r
    → HasDistinctKeys r.services
      × ((s : Registry) × (parse text ≡ some s) × Permᴰ r.services s.services)

checked :
    (sys : System) (r : Registry)
    → check_loaded sys r ≡ ok r
    → ((sys.parent_domain == "") ≡ false) × (validate r sys.parent_domain ≡ ok tt)
unfolding check_loaded
checked sys r fine = elim (Bool-cases (sys.parent_domain == "")) [
  | inl unset ↦ absurd (cc (rw unset at fine))
  | inr known ↦ elim (Outcome-cases (validate r sys.parent_domain)) [
    | inl (tt, valid) ↦ (known, valid)
    | inr (e, refused) ↦ absurd (cc (rw (known, refused, check_loaded) at fine))
  ]
]

passes :
    (sys : System) (r : Registry)
    → (sys.parent_domain == "") ≡ false
    → validate r sys.parent_domain ≡ ok tt
    → check_loaded sys r ≡ ok r
unfolding check_loaded
passes sys r known valid = rw (known, valid, check_loaded) refl

checked_self : (sys : System) (s r : Registry) → check_loaded sys s ≡ ok r → s ≡ r
unfolding check_loaded
checked_self sys s r fine = elim (Bool-cases (sys.parent_domain == "")) [
  | inl unset ↦ absurd (cc (rw unset at fine))
  | inr known ↦ elim (Outcome-cases (validate s sys.parent_domain)) [
    | inl (_, valid) ↦ ok_inj (rw (known, valid, check_loaded) at fine)
    | inr (e, refused) ↦ absurd (cc (rw (known, refused, check_loaded) at fine))
  ]
]

load_registry-perm :
    (sys : System) (parse : String → Option Registry) (f : File) (r : Registry)
    → IsReordering sys parse
    → load_registry sys f ≡ ok r
    → HasDistinctKeys r.services
      × ((s : Registry) × (load_registry (record sys { unmarshal = parse }) f ≡ ok s)
          × Permᴰ r.services s.services)
unfolding load_registry check_loaded
load_registry-perm sys parse missing r reorders h = absurd (cc h)
load_registry-perm sys parse unreadable r reorders h = absurd (cc h)
load_registry-perm sys parse (holds text) r reorders h = elim (Option-cases (sys.unmarshal text)) [
  | inl garbled ↦ absurd (cc (rw (garbled, load_registry) at h))
  | inr (read, parsed) ↦
      let fine = rw (parsed, load_registry) at h in
      let same = checked_self sys read r fine in
      let parsed' : sys.unmarshal text ≡ some r = parsed ∙ ap some same in
      let (known, valid) = checked sys r (subst (λ x. check_loaded sys x ≡ ok r) same fine) in
      let (distinct, (s, again, p)) = reorders text r parsed' in
      let valid' = (validate-perm r s sys.parent_domain p distinct).0 valid in
      (
        distinct,
        (
          s,
          rw (again, load_registry) (passes (record sys { unmarshal = parse }) s known valid'),
          p,
        ),
      )
]

module _ (h : Host) (bundle_dir profile : String) (parse : String → Option Registry) where
  -- The host when the map is iterated in the other order.
  abbrev pub later_host : Host
  later_host = record h { sys = record h.sys { unmarshal = parse } }

  pub load_profile-perm :
      (r : Registry)
      → IsReordering h.sys parse
      → load_profile h bundle_dir profile ≡ ok r
      → HasDistinctKeys r.services
        × ((s : Registry) × (load_profile later_host bundle_dir profile ≡ ok s)
            × Permᴰ r.services s.services)
  load_profile-perm r reorders loaded =
      let sys = record h.sys { parent_domain = h.getenv "HOME_STACK_PARENT_DOMAIN" } in
      let (distinct, (s, again, p)) =
        load_registry-perm sys parse (h.registries (registry_path h.getenv bundle_dir profile)) r
          reorders (raise-ok not_loaded _ r loaded) in
      (distinct, (s, ap (raise not_loaded) again, p))
