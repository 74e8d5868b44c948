-- ===== src/Deploy/Agree.antt =====
-- registry.go, `Apply`, and engine.go, `syncSystem`: what a run that succeeds has done, and that the
-- two do the same.
use home_stack.Prelude.{
  ◌≡◌, refl, sym, ap, ap₂, ◌↔◌, ◌⊎◌, List, [], ◌∷◌, ◌++◌, String, Outcome-cases, inl, inr, Result,
  ok, err, ok_inj, err_inj, join,
}
use home_stack.Artifacts.{GeneratedArtifacts, Bundle, Storage, write_artifacts}
use home_stack.Deploy.{
  DeployError, Host, prepare_apply, prepare_sync, apply, sync_system, sync_profile, not_written,
  not_reloaded,
}
use home_stack.Deploy.Ready.{prepare_sync-prepare_apply}

module _ (h : Host) (bundle_dir : String) (disk : Storage) where
  -- The run of `writeArtifacts` in an apply or a sync.
  abbrev write : GeneratedArtifacts → Bundle → Result String (List String) × Bundle
  write = write_artifacts disk (h.getenv "HOME_STACK_IDENTIFIER_PREFIX")

  pub apply-written :
      (profile log : String) (b b' : Bundle)
      → apply h bundle_dir disk profile b ≡ (ok log, b')
      → (a : GeneratedArtifacts) × (logs : List String) × (prepare_apply h bundle_dir profile
          ≡ ok a)
        × (write a b ≡ (ok logs, b'))
        × (join logs "\n" ≡ log)
  unfolding apply
  apply-written profile log b b' done = elim (Outcome-cases (prepare_apply h bundle_dir profile)) [
    | inr (e, refused) ↦ absurd (cc (rw (refused, apply) at done))
    | inl (a, ready) ↦
        let done' = rw (ready, apply) at done in
        elim (Outcome-cases (write a b).0) [
          | inr (e, failed) ↦ absurd (cc (rw (failed, apply) at done'))
          | inl (logs, wrote) ↦
              let same = rw (wrote, apply) at done' in
              (
                a,
                logs,
                ready,
                ap₂ (λ r s. (r, s)) wrote (ap (λ r. r.1) same),
                ok_inj (ap (λ r. r.0) same),
              )
        ]
  ]

  sync_system-written :
      (reload : Result String String) (text : String) (b b' : Bundle)
      → sync_system h bundle_dir disk reload b ≡ (ok text, b')
      → (a : GeneratedArtifacts) × (logs : List String) × (out : String) × (prepare_sync h
            bundle_dir
            (sync_profile h bundle_dir)
          ≡ ok a)
        × (write a b ≡ (ok logs, b'))
        × (reload ≡ ok out)
  unfolding sync_system
  sync_system-written reload text b b' done =
      elim (Outcome-cases (prepare_sync h bundle_dir (sync_profile h bundle_dir))) [
        | inr (e, refused) ↦ absurd (cc (rw (refused, sync_system) at done))
        | inl (a, ready) ↦
            let done' = rw (ready, sync_system) at done in
            elim (Outcome-cases (write a b).0) [
              | inr (e, failed) ↦ absurd (cc (rw (failed, sync_system) at done'))
              | inl (logs, wrote) ↦ elim (Outcome-cases reload) [
                | inr (e, failed) ↦ absurd (cc (rw (wrote, failed, sync_system) at done'))
                | inl (out, reloaded) ↦
                    let same = ap (λ r. r.1) (rw (wrote, reloaded, sync_system) at done') in
                    (a, logs, out, ready, ap₂ (λ r s. (r, s)) wrote same, reloaded)
              ]
            ]
      ]

  -- A sync succeeds exactly when an apply of the profile that it takes from the environment succeeds
  -- and Caddy reloads, and it leaves the bundle that the apply leaves.
  pub sync_system-apply :
      (reload : Result String String) (b b' : Bundle)
      → ((text : String) × (sync_system h bundle_dir disk reload b ≡ (ok text, b'))) ↔ (
          ((log : String) × (apply h bundle_dir disk (sync_profile h bundle_dir) b ≡ (ok log, b')))
          × ((out : String) × (reload ≡ ok out)))
  unfolding apply sync_system
  sync_system-apply reload b b' = (
    λ (text, done).
        let (a, logs, out, ready, wrote, reloaded) = sync_system-written reload text b b' done in
        let ready' =
          (prepare_sync-prepare_apply h bundle_dir (sync_profile h bundle_dir) a).0 ready in
        let (answered, left) : (((write a b).0 ≡ ok logs) × ((write a b).1 ≡ b')) =
          (ap (λ r. r.0) wrote, ap (λ r. r.1) wrote) in
        ((join logs "\n", rw (ready', apply, answered, apply, left) refl), (out, reloaded)),
    λ ((log, done), (out, reloaded)).
        let (a, logs, ready, wrote, _) = apply-written (sync_profile h bundle_dir) log b b' done in
        let ready' =
          (prepare_sync-prepare_apply h bundle_dir (sync_profile h bundle_dir) a).1 ready in
        let (answered, left) : (((write a b).0 ≡ ok logs) × ((write a b).1 ≡ b')) =
          (ap (λ r. r.0) wrote, ap (λ r. r.1) wrote) in
        (
          join (logs ++ ("Reloaded Caddy" ∷ [])) "\n",
          rw (ready', sync_system, answered, sync_system, left, reloaded) refl,
        ),
  )

  -- An apply that fails leaves the bundle as it was, unless it failed in a write; a sync that fails
  -- does so unless it failed in a write or in the reload of Caddy.
  pub failed_unwritten :
      (profile : String) (reload : Result String String) (e : DeployError) (b b' : Bundle)
      → (apply h bundle_dir disk profile b ≡ (err e, b')
          → (b' ≡ b) ⊎ ((text : String) × (e ≡ not_written text)))
        × (sync_system h bundle_dir disk reload b ≡ (err e, b')
            → (b' ≡ b) ⊎ ((text : String) × ((e ≡ not_written text) ⊎ (e ≡ not_reloaded text))))
  unfolding apply sync_system
  failed_unwritten profile reload e b b' = (
    λ failed. elim (Outcome-cases (prepare_apply h bundle_dir profile)) [
      | inr (refusal, refused) ↦ inl (sym (ap (λ r. r.1) (rw (refused, apply) at failed)))
      | inl (a, ready) ↦
          let failed' = rw (ready, apply) at failed in
          elim (Outcome-cases (write a b).0) [
            | inr (text, broken) ↦
                inr (text, sym (err_inj (ap (λ r. r.0) (rw (broken, apply) at failed'))))
            | inl (logs, wrote) ↦ absurd (cc (rw (wrote, apply) at failed'))
          ]
    ],
    λ failed. elim (Outcome-cases (prepare_sync h bundle_dir (sync_profile h bundle_dir))) [
      | inr (refusal, refused) ↦ inl (sym (ap (λ r. r.1) (rw (refused, sync_system) at failed)))
      | inl (a, ready) ↦
          let failed' = rw (ready, sync_system) at failed in
          elim (Outcome-cases (write a b).0) [
            | inr (text, broken) ↦
                inr
                  (text, inl (sym (err_inj (ap (λ r. r.0) (rw (broken, sync_system) at failed')))))
            | inl (logs, wrote) ↦ elim (Outcome-cases reload) [
              | inr (text, down) ↦ inr (
                text,
                inr (sym (err_inj (ap (λ r. r.0) (rw (wrote, sync_system, down) at failed')))),
              )
              | inl (out, fine) ↦ absurd (cc (rw (wrote, sync_system, fine) at failed'))
            ]
          ]
    ],
  )
