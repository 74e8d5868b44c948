-- ===== src/Artifacts/Reordered.antt =====
-- engine.go, `desiredArtifacts`, on a registry whose map is iterated in another order.
use home_stack.Prelude.{
  ◌≡◌, refl, sym, ap, ◌∙◌, List, [], ◌∷◌, Permᴰ, Option, some, String, ◌==◌, Map, map, lookup,
  HasDistinctKeys, perm-lookup, All, All-perm, ok, Bool-cases, is_some, Option-cases, Outcome-cases,
  inl, inr,
}
use mathlib.Core.Option.{some_inj}
use home_stack.Registry.{Service, Registry, is_enabled, generates_agent_plist}
use home_stack.Caddyfile.{generate_caddyfile}
use home_stack.Caddyfile.Served.{generate_caddyfile-perm}
use home_stack.Launchd.{
  Environment, config_dir_of, generate_launchd_plist, generate_system_daemon_plist,
}
use home_stack.Artifacts.{
  GeneratedArtifacts, catalog_entry, build_catalog, check_inputs, add_plist, add_plists,
  desired_artifacts,
}
use home_stack.Artifacts.Put.{put_all, put_all_foreign, lookup-put_all}
use home_stack.Artifacts.Plists.{agent_plist_of, daemon_plist_of, desired_artifacts_fields}

lookup-put_all_none :
    (f : String → Service → Option String) (r s : Map Service)
    → Permᴰ r s
    → HasDistinctKeys r
    → (k : String) → lookup k (put_all f s []) ≡ lookup k (put_all f r [])
unfolding lookup
lookup-put_all_none f r s p d k =
    let (d', same) = perm-lookup p d in
    elim (Option-cases (lookup k r)) [
      | inl gone ↦
          put_all_foreign f s [] k (sym (same k) ∙ gone) ∙ sym (put_all_foreign f r [] k gone)
      | inr (svc, here) ↦
          lookup-put_all f s [] k svc d' (sym (same k) ∙ here) refl
          ∙ sym (lookup-put_all f r [] k svc d here refl)
    ]

map-perm {ℓ κ} :
    {A : Type ℓ} {B : Type κ} (f : A → B) {l m : List A} → Permᴰ l m → Permᴰ (map f l) (map f m)
map-perm f Permᴰ.nil = Permᴰ.nil
map-perm f (Permᴰ.cons e p) = Permᴰ.cons (ap f e) (map-perm f p)
map-perm f (Permᴰ.swap d e) = Permᴰ.swap (ap f d) (ap f e)
map-perm f (Permᴰ.trans p q) = Permᴰ.trans (map-perm f p) (map-perm f q)

pub build_catalog-perm :
    (r s : Registry) (parent_domain : String)
    → Permᴰ r.services s.services
    → Permᴰ (build_catalog r parent_domain) (build_catalog s parent_domain)
unfolding build_catalog
build_catalog-perm r s parent_domain p = map-perm (catalog_entry parent_domain) p

catalog-keys :
    (services : Map Service) (parent_domain k : String)
    → is_some (lookup k (map (catalog_entry parent_domain) services)) ≡ is_some (lookup k services)
unfolding lookup
catalog-keys [] parent_domain k = refl
catalog-keys ((name, svc) ∷ rest) parent_domain k = elim (Bool-cases (name == k)) [
  | inl same ↦ simp same refl
  | inr other ↦ simp other (catalog-keys rest parent_domain k)
]

-- The catalogs list the same services.
pub build_catalog-keys :
    (r s : Registry) (parent_domain k : String)
    → Permᴰ r.services s.services
    → HasDistinctKeys r.services
    → is_some (lookup k (build_catalog r parent_domain))
      ≡ is_some (lookup k (build_catalog s parent_domain))
unfolding build_catalog
build_catalog-keys r s parent_domain k p d =
    catalog-keys r.services parent_domain k
    ∙ ap is_some ((perm-lookup p d).1 k)
    ∙ sym (catalog-keys s.services parent_domain k)

module _ (getenv : Environment) (quote : String → String) (marshal : Map Service → Option String)
    (profile bundle_dir owner_home id parent_domain : String) where
  -- The service's plist, if it is to have one, is generated, whatever was generated before.
  abbrev IsMade : String × Service → Type 0
  IsMade (name, svc) =
      (a : GeneratedArtifacts)
      → (b : GeneratedArtifacts) × (add_plist getenv quote marshal profile bundle_dir owner_home id
            parent_domain name svc a
          ≡ ok b)

  add_plist-IsMade :
      (name : String) (svc : Service) (a b : GeneratedArtifacts)
      → add_plist getenv quote marshal profile bundle_dir owner_home id parent_domain name svc a
        ≡ ok b
      → IsMade (name, svc)
  unfolding add_plist
  add_plist-IsMade name svc a b h other = elim (Bool-cases (svc.type == "system")) [
    | inl system ↦ elim (Bool-cases (is_enabled svc)) [
      | inr off ↦ simp (system, off) (other, refl)
      | inl on ↦
          elim (Outcome-cases
            (generate_system_daemon_plist getenv name profile bundle_dir owner_home id)) [
              | inl (plist, made) ↦ rw (system, on, made, add_plist) (_, refl)
              | inr (e, failed) ↦ absurd (cc (rw (system, on, failed, add_plist) at h))
            ]
    ]
    | inr user ↦ elim (Bool-cases (generates_agent_plist svc)) [
      | inr none_made ↦ simp (user, none_made) (other, refl)
      | inl wanted ↦
          elim (Outcome-cases (
            generate_launchd_plist name svc profile bundle_dir owner_home id parent_domain
              (config_dir_of getenv owner_home))) [
                | inl (plist, made) ↦ rw (user, wanted, made, add_plist) (_, refl)
                | inr (e, failed) ↦ absurd (cc (rw (user, wanted, failed, add_plist) at h))
              ]
    ]
  ]

  add_plists-IsMade :
      (services : Map Service) (a b : GeneratedArtifacts)
      → add_plists getenv quote marshal profile bundle_dir owner_home id parent_domain services a
        ≡ ok b
      → All IsMade services
  unfolding add_plists
  add_plists-IsMade [] a b h = tt
  add_plists-IsMade ((name, svc) ∷ rest) a b h =
      elim (Outcome-cases (
        add_plist getenv quote marshal profile bundle_dir owner_home id parent_domain name svc a)) [
          | inl (mid, made) ↦ (
            add_plist-IsMade name svc a mid made,
            add_plists-IsMade rest mid b (rw (made, add_plists) at h),
          )
          | inr (e, failed) ↦ absurd (cc (rw (failed, add_plists) at h))
        ]

  made-add_plists :
      (services : Map Service) (a : GeneratedArtifacts)
      → All IsMade services
      → (b : GeneratedArtifacts) × (add_plists getenv quote marshal profile bundle_dir owner_home id
            parent_domain services a
          ≡ ok b)
  unfolding add_plists
  made-add_plists [] a h = (a, refl)
  made-add_plists ((name, svc) ∷ rest) a (makes, later) =
      let (mid, made) = makes a in
      let (b, done) = made-add_plists rest mid later in (b, rw (made, add_plists) done)

  desired_steps :
      (r : Registry) (email tailnet_ip : String) (a : GeneratedArtifacts)
      → desired_artifacts getenv quote marshal r profile bundle_dir owner_home id parent_domain
          email tailnet_ip
        ≡ ok a
      → (check_inputs id parent_domain email tailnet_ip ≡ ok tt) × All IsMade r.services
  unfolding desired_artifacts
  desired_steps r email tailnet_ip a h =
      let start : GeneratedArtifacts = record {
        caddyfile = generate_caddyfile quote r email tailnet_ip owner_home parent_domain;
        agent_plists = [];
        daemon_plists = [];
        catalog = "";
      } in
      elim (Outcome-cases (check_inputs id parent_domain email tailnet_ip)) [
        | inr (e, refused) ↦ absurd (cc (rw (refused, desired_artifacts) at h))
        | inl (_, fine) ↦
            let h' = rw (fine, desired_artifacts) at h in
            elim (Outcome-cases (
              add_plists getenv quote marshal profile bundle_dir owner_home id parent_domain
                r.services start)) [
                  | inr (e, failed) ↦ absurd (cc (rw (failed, desired_artifacts) at h'))
                  | inl (mid, added) ↦ (fine, add_plists-IsMade r.services start mid added)
                ]
      ]

  desired_made :
      (s : Registry) (email tailnet_ip text : String)
      → check_inputs id parent_domain email tailnet_ip ≡ ok tt
      → All IsMade s.services
      → marshal (build_catalog s parent_domain) ≡ some text
      → (a : GeneratedArtifacts) × (desired_artifacts getenv quote marshal s profile bundle_dir
            owner_home id parent_domain email tailnet_ip
          ≡ ok a)
  unfolding desired_artifacts
  desired_made s email tailnet_ip text fine makes written =
      let start : GeneratedArtifacts = record {
        caddyfile = generate_caddyfile quote s email tailnet_ip owner_home parent_domain;
        agent_plists = [];
        daemon_plists = [];
        catalog = "";
      } in
      let (mid, added) = made-add_plists s.services start makes in
      (record mid { catalog = text }, rw (fine, desired_artifacts, added, written) refl)

  -- The same texts: of the Caddyfile, of the catalog, and of the plists of each name.
  abbrev pub SameArtifacts : GeneratedArtifacts → GeneratedArtifacts → Type 0
  SameArtifacts a b =
      (a.caddyfile ≡ b.caddyfile)
      × (a.catalog ≡ b.catalog)
      × ((k : String) → lookup k a.agent_plists ≡ lookup k b.agent_plists)
      × ((k : String) → lookup k a.daemon_plists ≡ lookup k b.daemon_plists)

  -- What a registry compiles down to does not depend on the order in which its map is iterated: in any
  -- other order too the artifacts are generated, and with the same texts, where JSON writes a map the
  -- same way in every order.
  pub desired_artifacts-perm :
      (r s : Registry) (email tailnet_ip : String) (a : GeneratedArtifacts)
      → ((m n : Map Service) → Permᴰ m n → marshal m ≡ marshal n)
      → Permᴰ r.services s.services
      → HasDistinctKeys r.services
      → desired_artifacts getenv quote marshal r profile bundle_dir owner_home id parent_domain
          email tailnet_ip
        ≡ ok a
      → (b : GeneratedArtifacts) × (desired_artifacts getenv quote marshal s profile bundle_dir
            owner_home id parent_domain email tailnet_ip
          ≡ ok b)
        × SameArtifacts b a
  desired_artifacts-perm r s email tailnet_ip a sorts p d done =
      let (fine, makes) = desired_steps r email tailnet_ip a done in
      let (caddy, agents, daemons, text) =
        desired_artifacts_fields getenv quote marshal profile bundle_dir owner_home id parent_domain
          r email tailnet_ip a done in
      let same = sym (sorts _ _ (build_catalog-perm r s parent_domain p)) ∙ text in
      let (b, done') =
        desired_made s email tailnet_ip a.catalog fine (All-perm IsMade p makes) same in
      let (caddy', agents', daemons', text') =
        desired_artifacts_fields getenv quote marshal profile bundle_dir owner_home id parent_domain
          s email tailnet_ip b done' in
      let agent_of =
        agent_plist_of getenv quote marshal profile bundle_dir owner_home id parent_domain in
      let daemon_of =
        daemon_plist_of getenv quote marshal profile bundle_dir owner_home id parent_domain in
      (
        b,
        done',
        (
          caddy'
              ∙ sym
                  (generate_caddyfile-perm quote r s email tailnet_ip owner_home parent_domain p d)
              ∙ sym caddy,
          some_inj.0 (sym text' ∙ same),
          λ k.
              ap (lookup k) agents'
              ∙ lookup-put_all_none agent_of r.services s.services p d k
              ∙ ap (lookup k) (sym agents),
          λ k.
              ap (lookup k) daemons'
              ∙ lookup-put_all_none daemon_of r.services s.services p d k
              ∙ ap (lookup k) (sym daemons),
        ),
      )
