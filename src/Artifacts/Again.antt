-- ===== src/Artifacts/Again.antt =====
-- engine.go, `writeArtifacts`, run once more on the bundle that it left.
use home_stack.Prelude.{
  Bool, true, ◌≡◌, refl, ap, ◌∙◌, List, [], ◌∷◌, ◌++◌, none, some, String, ◌==◌, eq_refl, lookup,
  HasDistinctKeys, ok, has_suffix, Bool-cases, Option-cases, Outcome-cases, inl, inr,
}
use mathlib.Core.Option.{some_inj}
use home_stack.Plists.{Node, file, folder, Folder, write_and_prune}
use home_stack.Plists.Again.{write_and_prune-again, write_and_prune-folder}
use home_stack.Artifacts.Written.{written_daemons, write_artifacts-IsWritten}
use home_stack.Edits.{holds}
use home_stack.Artifacts.{
  GeneratedArtifacts, Bundle, Storage, make_daemons, write_catalog, write_daemons, write_agents,
  make_dirs, write_artifacts,
}

module _ (disk : Storage) (id : String) (a : GeneratedArtifacts)
    (agents : HasDistinctKeys a.agent_plists) (daemons : HasDistinctKeys a.daemon_plists) where
  -- The bundle has what is generated, and writing its parts again succeeds and leaves them.
  abbrev IsSettled : Bundle → Type 0
  IsSettled b =
      (disk.writes_caddyfile ≡ true)
      × (disk.makes_launchd ≡ true)
      × (disk.writes_catalog ≡ true)
      × (b.caddyfile ≡ holds a.caddyfile)
      × (b.catalog ≡ holds a.catalog)
      × (make_daemons disk.makes_daemons b.agents ≡ some b.agents)
      × ((logs : List String) × (write_and_prune disk.writes_agent disk.removes_agent "plist" id
              a.agent_plists b.agents
            ≡ (ok logs, b.agents)))
      × ((logs : List String) × (write_and_prune disk.writes_daemon disk.removes_daemon
              "daemon plist" id a.daemon_plists b.daemons
            ≡ (ok logs, b.daemons)))

  settled-again :
      (b : Bundle)
      → IsSettled b
      → (logs : List String) × (write_artifacts disk id a b ≡ (ok logs, b))
  unfolding write_artifacts make_dirs write_agents write_daemons write_catalog
  settled-again b (caddy, dirs, catalog, text, listed, made, (more, once), (rest, twice)) = (
    ((("Generated Caddyfile" ∷ []) ++ more) ++ rest) ++ ("Generated catalog.json" ∷ []),
    rw
        (
          caddy,
          dirs,
          made,
          write_agents,
          ap (λ r. r.0) once,
          write_daemons,
          ap (λ r. r.0) twice,
          write_catalog,
          catalog,
          ap (λ r. r.1) once,
          ap (λ r. r.1) twice,
          ← text,
          ← listed,
        )
        refl,
  )

  lookup-last :
      (k : String) (v : Node) (m : Folder)
      → lookup k m ≡ none
      → lookup k (m ++ ((k, v) ∷ [])) ≡ some v
  unfolding lookup
  lookup-last k v [] h = rw eq_refl refl
  lookup-last k v ((j, w) ∷ m) h = elim (Bool-cases (j == k)) [
    | inl same ↦ absurd (cc (simp same at h))
    | inr other ↦ simp other (lookup-last k v m (simp other at h))
  ]

  make_daemons-folder :
      (makes : Bool) (dir dir' : Folder)
      → make_daemons makes dir ≡ some dir'
      → lookup "daemons" dir' ≡ some folder
  unfolding make_daemons
  make_daemons-folder makes dir dir' h = elim (Option-cases (lookup "daemons" dir)) [
    | inl missing ↦ elim (Bool-cases makes) [
      | inl can ↦
          let same = some_inj.0 (rw (missing, make_daemons, can) at h) in
          rw (← same) (lookup-last "daemons" folder dir missing)
      | inr cannot ↦ absurd (cc (rw (missing, make_daemons, cannot) at h))
    ]
    | inr (folder, there) ↦
        let same = some_inj.0 (rw (there, make_daemons) at h) in rw (← same) there
    | inr (file text, there) ↦ absurd (cc (rw (there, make_daemons) at h))
  ]

  made-again :
      (makes : Bool) (dir : Folder)
      → lookup "daemons" dir ≡ some folder
      → make_daemons makes dir ≡ some dir
  unfolding make_daemons
  made-again makes dir there = rw (there, make_daemons) refl

  catalog_written :
      (b b' : Bundle) (logs logs' : List String)
      → write_daemons disk id a b logs ≡ (ok logs', b')
      → disk.writes_catalog ≡ true
  unfolding write_daemons write_catalog
  catalog_written b b' logs logs' h =
      let run =
        write_and_prune disk.writes_daemon disk.removes_daemon "daemon plist" id a.daemon_plists
          b.daemons in
      elim (Outcome-cases run.0) [
        | inr (e, failed) ↦ absurd (cc (rw (failed, write_daemons) at h))
        | inl (more, done) ↦ elim (Bool-cases disk.writes_catalog) [
          | inl writes ↦ writes
          | inr fails ↦ absurd (cc (rw (done, write_daemons, fails) at h))
        ]
      ]

  agents_written :
      (b b' : Bundle) (logs logs' : List String)
      → write_agents disk id a b logs ≡ (ok logs', b')
      → (disk.writes_catalog ≡ true)
        × ((more : List String) × (write_and_prune disk.writes_agent disk.removes_agent "plist" id
                a.agent_plists b.agents
              ≡ (ok more, b'.agents)))
  unfolding write_agents
  agents_written b b' logs logs' h =
      let run =
        write_and_prune disk.writes_agent disk.removes_agent "plist" id a.agent_plists b.agents in
      let agents_of : Bundle → Folder = λ c. c.agents in
      elim (Outcome-cases run.0) [
        | inr (e, failed) ↦ absurd (cc (rw (failed, write_agents) at h))
        | inl (more, done) ↦
            let next = rw (done, write_agents) at h in
            let (_, _, _, same) =
              written_daemons disk id a (record b { agents = run.1 }) b' _ logs' next in
            let whole : run ≡ (ok more, run.1) = ap (λ r. (r, run.1)) done in
            (
              catalog_written (record b { agents = run.1 }) b' _ logs' next,
              (more, whole ∙ ap (λ dir. (ok more, dir)) (ap agents_of same)),
            )
      ]

  write_agents-IsSettled :
      (b b' : Bundle) (agents0 : Folder) (logs logs' : List String)
      → disk.writes_caddyfile ≡ true
      → disk.makes_launchd ≡ true
      → make_daemons disk.makes_daemons b.agents ≡ some agents0
      → write_agents disk id a (record b { caddyfile = holds a.caddyfile; agents = agents0 }) logs
        ≡ (ok logs', b')
      → (b'.caddyfile ≡ holds a.caddyfile)
        × (b'.catalog ≡ holds a.catalog)
        × ((more : List String) × (write_and_prune disk.writes_daemon disk.removes_daemon
                "daemon plist" id a.daemon_plists b.daemons
              ≡ (ok more, b'.daemons)))
      → IsSettled b'
  unfolding has_suffix
  write_agents-IsSettled b b' agents0 logs logs' caddy dirs made wrote
        (text, listed, (more, daemons_wrote)) =
      let (catalog, (lines, agents_wrote)) =
        agents_written (record b { caddyfile = holds a.caddyfile; agents = agents0 }) b' logs logs'
          wrote in
      let there =
        write_and_prune-folder disk.writes_agent disk.removes_agent "plist" id a.agent_plists
          agents0 b'.agents lines "daemons" agents agents_wrote refl
          (make_daemons-folder disk.makes_daemons b.agents agents0 made) in
      (
        caddy,
        dirs,
        catalog,
        text,
        listed,
        made-again disk.makes_daemons b'.agents there,
        write_and_prune-again disk.writes_agent disk.removes_agent "plist" id a.agent_plists agents
            agents0 b'.agents lines agents_wrote,
        write_and_prune-again disk.writes_daemon disk.removes_daemon "daemon plist" id
            a.daemon_plists daemons b.daemons b'.daemons more daemons_wrote,
      )

  -- Writing the same artifacts again to the bundle that they were written to leaves it as it is.
  pub write_artifacts-again :
      (b b' : Bundle) (logs : List String)
      → write_artifacts disk id a b ≡ (ok logs, b')
      → (logs' : List String) × (write_artifacts disk id a b' ≡ (ok logs', b'))
  unfolding write_artifacts make_dirs
  write_artifacts-again b b' logs h = elim (Bool-cases disk.writes_caddyfile) [
    | inr fails ↦ absurd (cc (rw fails at h))
    | inl writes ↦ elim (Bool-cases disk.makes_launchd) [
      | inr fails ↦ absurd (cc (rw (writes, fails) at h))
      | inl makes ↦ elim (Option-cases (make_daemons disk.makes_daemons b.agents)) [
        | inl fails ↦ absurd (cc (rw (writes, makes, fails, make_dirs) at h))
        | inr (agents0, made) ↦
            let (text, listed, _, last) = write_artifacts-IsWritten disk id a b b' logs h in
            settled-again b' (
              write_agents-IsSettled b b' agents0 _ logs writes makes made
                (rw (writes, makes, made, make_dirs) at h) (text, listed, last))
      ]
    ]
  ]
