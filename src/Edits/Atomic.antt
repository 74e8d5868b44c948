-- ===== src/Edits/Atomic.antt =====
-- registry.go, `AddService` and `RemoveService`: what every outcome leaves on the disk.
use home_stack.Prelude.{
  true, false, ◌≡◌, ◌⊎◌, inl, inr, refl, [], some, String, ◌==◌, lookup, insert, erase, Result, ok,
  err, Bool-cases, Option-cases,
}
use home_stack.Registry.{Service, Registry}
use home_stack.Validate.{validate}
use home_stack.Edits.{
  File, missing, holds, Disk, not_exist, not_readable, malformed, no_parent_domain, invalid,
  EditError, System, check_loaded, load_registry, remove_temp, commit, write_registry, add_to,
  add_service, remove_from, remove_service,
}

outcome {ℓ τ} :
    {E : Type τ} {A : Type ℓ} (r : Result E A) → ((a : A) × (r ≡ ok a)) ⊎ ((e : E) × (r ≡ err e))
outcome (ok a) = inl (a, refl)
outcome (err e) = inr (e, refl)

module _ (sys : System) where
  -- The file loads, and to a registry that the checks accept.
  abbrev pub Loads : File → Type 0
  Loads f = (r : Registry) × (load_registry sys f ≡ ok r)

  -- An error leaves the registry as it was, and success a file that loads.
  abbrev pub IsReplaced : Disk → Result EditError (Unit {0}) × Disk → Type 0
  IsReplaced disk (err e, after) = after.registry ≡ disk.registry
  IsReplaced disk (ok u, after) = Loads after.registry

  -- The same, where success may also leave the registry as it was.
  abbrev pub IsAtomic : Disk → Result EditError (Unit {0}) × Disk → Type 0
  IsAtomic disk (err e, after) = after.registry ≡ disk.registry
  IsAtomic disk (ok u, after) = (after.registry ≡ disk.registry) ⊎ Loads after.registry

  pub replaced-IsAtomic :
      (disk : Disk) (outcome : Result EditError (Unit {0}) × Disk)
      → IsReplaced disk outcome
      → IsAtomic disk outcome
  replaced-IsAtomic disk (err e, after) same = same
  replaced-IsAtomic disk (ok u, after) loads = inr loads

  remove_temp-registry : (disk : Disk) → (remove_temp sys disk).registry ≡ disk.registry
  remove_temp-registry disk = elim (Bool-cases sys.can_remove) [
    | inl e ↦ simp e refl
    | inr e ↦ simp e refl
  ]

  commit-IsReplaced : (text : String) (disk : Disk) → IsReplaced disk (commit sys text disk)
  unfolding commit
  commit-IsReplaced text disk = elim (outcome (load_registry sys disk.temp)) [
    | inl (r, e) ↦
        rw (e, commit)
          (elim (Bool-cases sys.can_rename) [
            | inl f ↦ simp f ((r, e))
            | inr f ↦ simp f (remove_temp-registry disk)
          ])
    | inr (x, e) ↦ rw (e, commit) (remove_temp-registry disk)
  ]

  write_registry-IsReplaced :
      (r : Registry) (disk : Disk) → IsReplaced disk (write_registry sys r disk)
  unfolding write_registry
  write_registry-IsReplaced r disk = elim (Option-cases (sys.marshal r)) [
    | inl e ↦ rw (e, write_registry) refl
    | inr (text, e) ↦
        rw (e, write_registry)
          (elim (Bool-cases sys.can_write) [
            | inl f ↦ simp f (commit-IsReplaced text (record disk { temp = holds text }))
            | inr f ↦ simp f refl
          ])
  ]

  add_to-IsReplaced :
      (r : Registry) (name : String) (svc : Service) (disk : Disk)
      → IsReplaced disk (add_to sys r name svc disk)
  unfolding add_to
  add_to-IsReplaced r name svc disk =
      let edited : Registry = record { services = insert name svc r.services } in
      elim (Bool-cases (sys.parent_domain == "")) [
        | inl e ↦ simp e refl
        | inr e ↦ simp e (elim (outcome (validate edited sys.parent_domain)) [
          | inl (_, f) ↦ simp f (write_registry-IsReplaced edited disk)
          | inr (_, f) ↦ simp f refl
        ])
      ]

  -- Adding a service is atomic: an error leaves the registry's file as it was, and success leaves a
  -- file that loads as a valid registry.
  pub add_service-IsReplaced :
      (name : String) (svc : Service) (disk : Disk)
      → IsReplaced disk (add_service sys name svc disk)
  unfolding add_service
  add_service-IsReplaced name svc disk = elim (outcome (load_registry sys disk.registry)) [
    | inl (r, e) ↦ rw (e, add_service) (add_to-IsReplaced r name svc disk)
    | inr (not_exist, e) ↦
        rw (e, add_service) (add_to-IsReplaced (record { services = [] }) name svc disk)
    | inr (not_readable, e) ↦ rw (e, add_service) refl
    | inr (malformed, e) ↦ rw (e, add_service) refl
    | inr (no_parent_domain, e) ↦ rw (e, add_service) refl
    | inr (invalid v, e) ↦ rw (e, add_service) refl
  ]

  remove_from-IsAtomic :
      (r : Registry) (name : String) (disk : Disk) → IsAtomic disk (remove_from sys r name disk)
  unfolding remove_from
  remove_from-IsAtomic r name disk = elim (Option-cases (lookup name r.services)) [
    | inl e ↦ rw (e, remove_from) (inl refl)
    | inr (svc, e) ↦
        rw (e, remove_from)
          (replaced-IsAtomic disk _
            (write_registry-IsReplaced (record { services = erase name r.services }) disk))
  ]

  -- Removing a service is atomic: an error leaves the registry's file as it was, and success leaves a
  -- file that loads as a valid registry, or the file as it was.
  pub remove_service-IsAtomic :
      (name : String) (disk : Disk) → IsAtomic disk (remove_service sys name disk)
  unfolding remove_service
  remove_service-IsAtomic name disk = elim (outcome (load_registry sys disk.registry)) [
    | inl (r, e) ↦ rw (e, remove_service) (remove_from-IsAtomic r name disk)
    | inr (not_exist, e) ↦ rw (e, remove_service) (inl refl)
    | inr (not_readable, e) ↦ rw (e, remove_service) refl
    | inr (malformed, e) ↦ rw (e, remove_service) refl
    | inr (no_parent_domain, e) ↦ rw (e, remove_service) refl
    | inr (invalid v, e) ↦ rw (e, remove_service) refl
  ]

  checked :
      (r : Registry)
      → (sys.parent_domain == "") ≡ false
      → validate r sys.parent_domain ≡ ok tt
      → check_loaded sys r ≡ ok r
  unfolding check_loaded
  checked r domain valid = simp domain (rw valid refl)

  -- On a disk that takes writes and renames, with YAML that reads back what it wrote, adding a
  -- service to a registry that loads, such that the registry with it is valid, succeeds, and the file
  -- then loads as that registry.
  pub add_service-succeeds :
      (name : String) (svc : Service) (disk : Disk) (r : Registry) (text : String)
      → load_registry sys disk.registry ≡ ok r
      → validate (record { services = insert name svc r.services }) sys.parent_domain ≡ ok tt
      → (sys.parent_domain == "") ≡ false
      → sys.marshal (record { services = insert name svc r.services }) ≡ some text
      → sys.unmarshal text ≡ some (record { services = insert name svc r.services })
      → sys.can_write ≡ true
      → sys.can_rename ≡ true
      → (add_service sys name svc disk ≡ (ok tt, record { registry = holds text; temp = missing }))
        × (load_registry sys (holds text) ≡ ok (record { services = insert name svc r.services }))
  unfolding add_service add_to write_registry commit load_registry check_loaded
  add_service-succeeds name svc disk r text loads valid domain written read writes_ok renames_ok =
      let edited : Registry = record { services = insert name svc r.services } in
      let reads : load_registry sys (holds text) ≡ ok edited =
        rw (read, load_registry) (checked edited domain valid) in
      (
        rw (loads, add_service)
            (simp domain (
              rw valid (
                rw (written, write_registry)
                  (simp writes_ok (rw (reads, commit) (simp renames_ok refl)))))),
        reads,
      )
