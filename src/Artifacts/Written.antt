-- ===== src/Artifacts/Written.antt =====
-- engine.go, `writeArtifacts`: what a run that succeeds has written.
use home_stack.Prelude.{
  ◌≡◌, refl, ap, List, String, ok, Bool-cases, Option-cases, Outcome-cases, inl, inr,
}
use home_stack.Plists.{Folder, write_and_prune}
use home_stack.Edits.{holds}
use home_stack.Artifacts.{
  GeneratedArtifacts, Bundle, Storage, make_daemons, write_catalog, write_daemons, write_agents,
  make_dirs, write_artifacts,
}

module _ (disk : Storage) (id : String) (a : GeneratedArtifacts) where
  -- The bundle after a run holds the texts generated, and each directory is the outcome of its part.
  abbrev pub IsWritten : Folder → Bundle → Type 0
  IsWritten daemons b =
      (b.caddyfile ≡ holds a.caddyfile)
      × (b.catalog ≡ holds a.catalog)
      × ((before : Folder) × (logs : List String) × (write_and_prune disk.writes_agent
              disk.removes_agent "plist" id a.agent_plists before
            ≡ (ok logs, b.agents)))
      × ((logs : List String) × (write_and_prune disk.writes_daemon disk.removes_daemon
              "daemon plist" id a.daemon_plists daemons
            ≡ (ok logs, b.daemons)))

  written_catalog :
      (b b' : Bundle) (logs logs' : List String)
      → write_catalog disk id a b logs ≡ (ok logs', b')
      → record b { catalog = holds a.catalog } ≡ b'
  unfolding write_catalog
  written_catalog b b' logs logs' h = elim (Bool-cases disk.writes_catalog) [
    | inl writes ↦ ap (λ r. r.1) (rw writes at h)
    | inr fails ↦ absurd (cc (rw fails at h))
  ]

  pub written_daemons :
      (b b' : Bundle) (logs logs' : List String)
      → write_daemons disk id a b logs ≡ (ok logs', b')
      → (more : List String) × (daemons : Folder) × (write_and_prune disk.writes_daemon
            disk.removes_daemon "daemon plist" id a.daemon_plists b.daemons
          ≡ (ok more, daemons))
        × (record b { daemons = daemons; catalog = holds a.catalog } ≡ b')
  unfolding write_daemons
  written_daemons b b' logs logs' h =
      let run =
        write_and_prune disk.writes_daemon disk.removes_daemon "daemon plist" id a.daemon_plists
          b.daemons in
      elim (Outcome-cases run.0) [
        | inl (more, done) ↦ (
          more,
          run.1,
          ap (λ r. (r, run.1)) done,
          written_catalog _ b' _ logs' (rw (done, write_daemons) at h),
        )
        | inr (e, failed) ↦ absurd (cc (rw (failed, write_daemons) at h))
      ]

  write_agents-IsWritten :
      (b b' : Bundle) (logs logs' : List String)
      → write_agents disk id a b logs ≡ (ok logs', b')
      → b.caddyfile ≡ holds a.caddyfile
      → IsWritten b.daemons b'
  unfolding write_agents
  write_agents-IsWritten b b' logs logs' h text =
      let run =
        write_and_prune disk.writes_agent disk.removes_agent "plist" id a.agent_plists b.agents in
      elim (Outcome-cases run.0) [
        | inl (more, done) ↦
            let (last, daemons, wrote, same) =
              written_daemons (record b { agents = run.1 }) b' _ logs'
                (rw (done, write_agents) at h) in
            rw (← same) (text, refl, (b.agents, more, ap (λ r. (r, run.1)) done), (last, wrote))
        | inr (e, failed) ↦ absurd (cc (rw (failed, write_agents) at h))
      ]

  pub write_artifacts-IsWritten :
      (b b' : Bundle) (logs : List String)
      → write_artifacts disk id a b ≡ (ok logs, b')
      → IsWritten b.daemons b'
  unfolding write_artifacts make_dirs
  write_artifacts-IsWritten b b' logs h = elim (Bool-cases disk.writes_caddyfile) [
    | inr fails ↦ absurd (cc (rw fails at h))
    | inl writes ↦ elim (Bool-cases disk.makes_launchd) [
      | inr fails ↦ absurd (cc (rw (writes, fails) at h))
      | inl makes ↦ elim (Option-cases (make_daemons disk.makes_daemons b.agents)) [
        | inl fails ↦ absurd (cc (rw (writes, makes, fails, make_dirs) at h))
        | inr (agents, made) ↦
            write_agents-IsWritten _ b' _ logs (rw (writes, makes, made, make_dirs) at h) refl
      ]
    ]
  ]
