-- ===== src/Plists/Prune.antt =====
-- registry.go, `pruneStalePlists`, and engine.go, the loop of `writeArtifacts`: what they leave on
-- disk.
use home_stack.Prelude.{
  true, any, ◌<>◌, Bool, ◌≡◌, ◌≢◌, ◌⊎◌, refl, sym, ap, ap₂, ◌∙◌, List, [], ◌∷◌, none, some, String,
  ◌==◌, eq_iff, Map, lookup, insert, lookup-insert_self, lookup-insert_ne, arith, HasDistinctKeys,
  All, All-imp, All-ne_of_lookup, ok, Bool-cases, Option-cases, inl, inr,
}
use home_stack.Plists.{
  Attempt, Node, file, folder, Folder, agent_plist_filename, plist_service_name, write_file,
  write_plists, stale, prune_stale_plists,
}
use home_stack.Plists.Names.{plist_service_name-agent_plist_filename, plist_service_name_iff}

agent_plist_filename-injective :
    (id n m : String) → agent_plist_filename id n ≡ agent_plist_filename id m → n ≡ m
agent_plist_filename-injective id n m e =
    let same =
      sym (plist_service_name-agent_plist_filename id n)
      ∙ ap (plist_service_name id) e
      ∙ plist_service_name-agent_plist_filename id m in
    cc

some-node : {a b : Node} → some a ≡ some b → a ≡ b
some-node h = cc

some≢none : {s : String} → some s ≡ none → ⊥
some≢none h = cc

module _ (can_write : String → Attempt) (can_remove : String → Bool) (noun id : String) where
  write_file-eq :
      (f c : String) (dir dir' : Folder)
      → write_file can_write can_remove f c dir ≡ some dir'
      → dir' ≡ insert f (file c) dir
  unfolding write_file
  write_file-eq f c dir dir' h = ground arith

  -- After the loop each desired plist is on disk, and no other name has changed.
  pub write_plists-lookup :
      (plists : Map String) (dir : Folder) (logs logs' : List String) (dir' : Folder)
      → HasDistinctKeys plists
      → write_plists can_write can_remove noun id plists dir logs ≡ (ok logs', dir')
      → All (λ p. lookup (agent_plist_filename id p.0) dir' ≡ some (file p.1)) plists
        × ((f : String)
            → All (λ p. f ≢ agent_plist_filename id p.0) plists
            → lookup f dir' ≡ lookup f dir)
  unfolding write_plists
  write_plists-lookup [] dir logs logs' dir' d h = (tt, λ f _. cc)
  write_plists-lookup ((n, c) ∷ rest) dir logs logs' dir' (fresh, d) h =
      elim (Option-cases (write_file can_write can_remove (agent_plist_filename id n) c dir)) [
        | inl failed ↦ absurd (cc (rw (failed, write_plists) at h))
        | inr (next, wrote) ↦
            let (each, frame) =
              write_plists-lookup rest next _ logs' dir' d (rw (wrote, write_plists) at h) in
            let step = write_file-eq _ c dir next wrote in
            let apart =
              All-imp _ (λ (m, _) ne e. ne (agent_plist_filename-injective id n m e)) rest
                (All-ne_of_lookup n rest fresh) in
            (
              (frame _ apart ∙ ap (lookup _) step ∙ lookup-insert_self _ (file c) dir, each),
              λ f (ne, others).
                  frame f others
                  ∙ ap (lookup f) step
                  ∙ lookup-insert_ne _ f (file c) dir (λ e. ne (sym e)),
            )
      ]

module _ (can_write : String → Attempt) (can_remove : String → Bool) (id : String) where
  foreign-not-stale :
      (desired : List String) (f : String) (node : Node)
      → (node ≡ folder) ⊎ (plist_service_name id f ≡ none)
      → stale can_write can_remove id desired f node ≡ none
  unfolding stale
  foreign-not-stale desired f folder h = refl
  foreign-not-stale desired f (file c) (inl h) = absurd (cc h)
  foreign-not-stale desired f (file c) (inr h) = rw (h, stale)

  -- An entry that is not stale survives the pruning.
  pub prune-keeps :
      (desired : List String) (dir : Folder) (f : String) (node : Node)
      → lookup f dir ≡ some node
      → stale can_write can_remove id desired f node ≡ none
      → lookup f (prune_stale_plists can_write can_remove id desired dir).1 ≡ some node
  unfolding prune_stale_plists lookup
  prune-keeps desired [] f node h fresh = absurd (cc h)
  prune-keeps desired ((g, node') ∷ dir) f node h fresh =
      elim (Option-cases (stale can_write can_remove id desired g node')) [
        | inl kept ↦
            rw (kept, prune_stale_plists)
              (elim (Bool-cases (g == f)) [
                | inl same ↦ rw same (rw same at h)
                | inr other ↦ rw other (prune-keeps desired dir f node (rw other at h) fresh)
              ])
        | inr (name, gone) ↦
            rw (gone, prune_stale_plists)
              (elim (Bool-cases (g == f)) [
                | inl same ↦
                    let here : node' ≡ node = some-node (rw same at h) in
                    absurd (
                      some≢none (
                        sym gone
                        ∙ ap₂ (stale can_write can_remove id desired) ((eq_iff g f).0 same) here
                        ∙ fresh))
                | inr other ↦ prune-keeps desired dir f node (rw other at h) fresh
              ])
      ]

  -- What the pruning leaves is not stale.
  pub prune-All :
      (desired : List String) (dir : Folder)
      → All
          (λ e. stale can_write can_remove id desired e.0 e.1 ≡ none)
          (prune_stale_plists can_write can_remove id desired dir).1
  unfolding prune_stale_plists
  prune-All desired [] = tt
  prune-All desired ((g, node) ∷ dir) =
      elim (Option-cases (stale can_write can_remove id desired g node)) [
        | inl kept ↦ rw (kept, prune_stale_plists) (kept, prune-All desired dir)
        | inr (name, gone) ↦ rw (gone, prune_stale_plists) (prune-All desired dir)
      ]

  unread :
      (f : String)
      → ((name : String) → f ≢ agent_plist_filename id name)
      → f ≢ id <> ".home-stack.plist"
      → plist_service_name id f ≡ none
  unread f unnamed other = elim (Option-cases (plist_service_name id f)) [
    | inl free ↦ free
    | inr (name, read) ↦ elim ((plist_service_name_iff id f name).0 read) [
      | inl named ↦ absurd (unnamed name named)
      | inr (bare, _) ↦ absurd (other bare)
    ]
  ]

  desired-not-stale :
      (desired : List String) (name : String) (node : Node)
      → any (λ d. d == name) desired ≡ true
      → stale can_write can_remove id desired (agent_plist_filename id name) node ≡ none
  unfolding stale
  desired-not-stale desired name folder wanted = refl
  desired-not-stale desired name (file c) wanted =
      rw (plist_service_name-agent_plist_filename id name, stale, wanted)

  -- Pruning leaves as they were: every folder; every file that is neither named
  -- "<prefix>.home-stack.<name>.plist" for any name, nor "<prefix>.home-stack.plist"; and the file of a
  -- service that is desired.
  pub prune_foreign :
      (desired : List String) (dir : Folder) (f : String) (node : Node)
      → lookup f dir ≡ some node
      → (node ≡ folder)
        ⊎ ((((name : String) → f ≢ id <> ".home-stack." <> name <> ".plist")
              × (f ≢ id <> ".home-stack.plist"))
            ⊎ ((name : String) × (any (λ d. d == name) desired ≡ true)
                × (f ≡ id <> ".home-stack." <> name <> ".plist")))
      → lookup f (prune_stale_plists can_write can_remove id desired dir).1 ≡ some node
  unfolding agent_plist_filename
  prune_foreign desired dir f node h (inl is_folder) =
      prune-keeps desired dir f node h (foreign-not-stale desired f node (inl is_folder))
  prune_foreign desired dir f node h (inr (inl (unnamed, other))) =
      prune-keeps desired dir f node h
        (foreign-not-stale desired f node (inr (unread f unnamed other)))
  prune_foreign desired dir f node h (inr (inr (name, wanted, named))) =
      prune-keeps desired dir f node h (
        ap (λ g. stale can_write can_remove id desired g node) named
        ∙ desired-not-stale desired name node wanted)
