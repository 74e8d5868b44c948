-- ===== src/Artifacts/Plists.antt =====
-- engine.go, the loop of `desiredArtifacts`: which services it gives a plist, and which.
use home_stack.Prelude.{
  true, false, ◌&&◌, ◌≡◌, refl, [], ◌∷◌, Option, none, some, String, ◌==◌, Map, if◌then◌else◌,
  Result, ok, err, ok_inj, Bool-cases, Option-cases, Outcome-cases, inl, inr, arith,
}
use home_stack.Registry.{Service, Registry, is_enabled, generates_agent_plist}
use home_stack.Caddyfile.{generate_caddyfile}
use home_stack.Launchd.{
  PlistError, Environment, config_dir_of, generate_launchd_plist, generate_system_daemon_plist,
}
use home_stack.Artifacts.{
  GeneratedArtifacts, build_catalog, check_inputs, add_plist, add_plists, desired_artifacts,
}
use home_stack.Artifacts.Put.{put, put_all}

system_no_agent :
    (svc : Service) → (svc.type == "system") ≡ true → generates_agent_plist svc ≡ false
unfolding generates_agent_plist
system_no_agent svc h = ground arith

abbrev kept_text : Result PlistError String → Option String
kept_text (ok plist) = some plist
kept_text (err e) = none

module _ (getenv : Environment) (quote : String → String) (marshal : Map Service → Option String)
    (profile bundle_dir owner_home id parent_domain : String) where
  -- The agent plist of a service, if it is to have one, and the same of the daemon.
  abbrev pub agent_plist_of : String → Service → Option String
  agent_plist_of name svc =
      if generates_agent_plist svc
      then kept_text (
          generate_launchd_plist name svc profile bundle_dir owner_home id parent_domain
            (config_dir_of getenv owner_home))
      else none

  abbrev pub daemon_plist_of : String → Service → Option String
  daemon_plist_of name svc =
      if svc.type == "system" && is_enabled svc
      then kept_text (generate_system_daemon_plist getenv name profile bundle_dir owner_home id)
      else none

  add_plist-put :
      (name : String) (svc : Service) (a a' : GeneratedArtifacts)
      → add_plist getenv quote marshal profile bundle_dir owner_home id parent_domain name svc a
        ≡ ok a'
      → (a'.agent_plists ≡ put name (agent_plist_of name svc) a.agent_plists)
        × (a'.daemon_plists ≡ put name (daemon_plist_of name svc) a.daemon_plists)
        × (a'.caddyfile ≡ a.caddyfile)
  unfolding add_plist
  add_plist-put name svc a a' h = elim (Bool-cases (svc.type == "system")) [
    | inl system ↦ elim (Bool-cases (is_enabled svc)) [
      | inr off ↦
          let same = ok_inj (rw (system, off) at h) in
          rw (system_no_agent svc system, system, off, ← same) (refl, refl, refl)
      | inl on ↦
          elim (Outcome-cases
            (generate_system_daemon_plist getenv name profile bundle_dir owner_home id)) [
              | inl (plist, made) ↦
                  let same = ok_inj (rw (system, on, made, add_plist) at h) in
                  rw (system_no_agent svc system, system, on, made, kept_text, ← same)
                    (refl, refl, refl)
              | inr (e, failed) ↦ absurd (cc (rw (system, on, failed, add_plist) at h))
            ]
    ]
    | inr user ↦ elim (Bool-cases (generates_agent_plist svc)) [
      | inr none_made ↦
          let same = ok_inj (rw (user, none_made) at h) in
          rw (none_made, user, ← same) (refl, refl, refl)
      | inl wanted ↦
          elim (Outcome-cases (
            generate_launchd_plist name svc profile bundle_dir owner_home id parent_domain
              (config_dir_of getenv owner_home))) [
                | inl (plist, made) ↦
                    let same = ok_inj (rw (user, wanted, made, add_plist) at h) in
                    rw (wanted, user, made, kept_text, ← same) (refl, refl, refl)
                | inr (e, failed) ↦ absurd (cc (rw (user, wanted, failed, add_plist) at h))
              ]
    ]
  ]

  add_plists-put_all :
      (services : Map Service) (a a' : GeneratedArtifacts)
      → add_plists getenv quote marshal profile bundle_dir owner_home id parent_domain services a
        ≡ ok a'
      → (a'.agent_plists ≡ put_all agent_plist_of services a.agent_plists)
        × (a'.daemon_plists ≡ put_all daemon_plist_of services a.daemon_plists)
        × (a'.caddyfile ≡ a.caddyfile)
  unfolding add_plists
  add_plists-put_all [] a a' h = let same = ok_inj h in rw (← same) (refl, refl, refl)
  add_plists-put_all ((name, svc) ∷ rest) a a' h =
      elim (Outcome-cases (
        add_plist getenv quote marshal profile bundle_dir owner_home id parent_domain name svc a)) [
          | inl (mid, made) ↦
              let (agents, daemons, text) = add_plist-put name svc a mid made in
              let later = add_plists-put_all rest mid a' (rw (made, add_plists) at h) in
              rw (← agents, ← daemons, ← text) later
          | inr (e, failed) ↦ absurd (cc (rw (failed, add_plists) at h))
        ]

  -- What `desired_artifacts` generates when it succeeds, field by field.
  pub desired_artifacts_fields :
      (r : Registry) (email tailnet_ip : String) (a : GeneratedArtifacts)
      → desired_artifacts getenv quote marshal r profile bundle_dir owner_home id parent_domain
          email tailnet_ip
        ≡ ok a
      → (a.caddyfile ≡ generate_caddyfile quote r email tailnet_ip owner_home parent_domain)
        × (a.agent_plists ≡ put_all agent_plist_of r.services [])
        × (a.daemon_plists ≡ put_all daemon_plist_of r.services [])
        × (marshal (build_catalog r parent_domain) ≡ some a.catalog)
  unfolding desired_artifacts
  desired_artifacts_fields r email tailnet_ip a h =
      let start : GeneratedArtifacts = record {
        caddyfile = generate_caddyfile quote r email tailnet_ip owner_home parent_domain;
        agent_plists = [];
        daemon_plists = [];
        catalog = "";
      } in
      elim (Outcome-cases (check_inputs id parent_domain email tailnet_ip)) [
        | inr (e, refused) ↦ absurd (cc (rw (refused, desired_artifacts) at h))
        | inl (_, fine) ↦
            let h' = rw (fine, desired_artifacts) at h in
            elim (Outcome-cases (
              add_plists getenv quote marshal profile bundle_dir owner_home id parent_domain
                r.services start)) [
                  | inr (e, failed) ↦ absurd (cc (rw (failed, desired_artifacts) at h'))
                  | inl (mid, added) ↦
                      elim (Option-cases (marshal (build_catalog r parent_domain))) [
                        | inl broken ↦ absurd (cc (rw (added, broken, desired_artifacts) at h'))
                        | inr (text, written) ↦
                            let same = ok_inj (rw (added, written, desired_artifacts) at h') in
                            let (agents, daemons, caddy) =
                              add_plists-put_all r.services start mid added in
                            rw (← same) (caddy, agents, daemons, written)
                      ]
                ]
      ]
