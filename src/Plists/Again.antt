-- ===== src/Plists/Again.antt =====
-- engine.go, the loops of `writeArtifacts` and the pruning, run once more on the directory they left.
use home_stack.Prelude.{
  Bool, true, false, not, ◌≡◌, ◌≢◌, has_prefix, has_suffix, refl, sym, ap, ◌∙◌, List, [], ◌∷◌, ◌++◌,
  none, some, String, ◌==◌, ◌<>◌, eq_iff, Map, lookup, insert, keys, any-keys_of_lookup,
  HasDistinctKeys, All, All-imp, All-zip, All-lookup_self, Result, ok, err, Bool-cases,
  Option-cases, Outcome-cases, inl, inr, arith,
}
use home_stack.Plists.{
  Attempt, is_whole, Node, file, folder, Folder, agent_plist_filename, plist_service_name,
  write_file, write_plists, stale, prune_stale_plists, write_and_prune,
}
use home_stack.Plists.Names.{plist_service_name-agent_plist_filename}
use home_stack.Plists.Prune.{write_plists-lookup, prune-keeps, prune-All}

-- Storing what is there changes nothing.
insert_same : (k : String) (v : Node) (m : Folder) → lookup k m ≡ some v → insert k v m ≡ m
unfolding lookup insert
insert_same k v [] h = absurd (cc h)
insert_same k v ((j, w) ∷ m) h = elim (Bool-cases (j == k)) [
  | inl same ↦
      let name : j ≡ k = (eq_iff j k).0 same in
      let value : w ≡ v = ground (arith, simp same at h) in simp same (rw (name, value) refl)
  | inr other ↦ simp other (ap (λ r. (j, w) ∷ r) (insert_same k v m (simp other at h)))
]

module _ (can_write : String → Attempt) (can_remove : String → Bool) (noun id : String) where
  abbrev CanWrite : Map String → Type 0
  CanWrite = All (λ p. is_whole (can_write (agent_plist_filename id p.0)) ≡ true)

  write_plists-CanWrite :
      (plists : Map String) (dir dir' : Folder) (logs logs' : List String)
      → write_plists can_write can_remove noun id plists dir logs ≡ (ok logs', dir')
      → CanWrite plists
  unfolding write_plists write_file
  write_plists-CanWrite [] dir dir' logs logs' h = tt
  write_plists-CanWrite ((n, c) ∷ rest) dir dir' logs logs' h =
      let f = agent_plist_filename id n in
      elim (Option-cases (write_file can_write can_remove f c dir)) [
        | inl failed ↦ absurd (cc (rw (failed, write_plists) at h))
        | inr (next, wrote) ↦ (
          elim (Bool-cases (is_whole (can_write f))) [
            | inl can ↦ can
            | inr cannot ↦ absurd (cc (simp cannot at wrote))
          ],
          write_plists-CanWrite rest next dir' _ logs' (rw (wrote, write_plists) at h),
        )
      ]

  write_plists-again :
      (plists : Map String) (dir : Folder) (logs : List String)
      → CanWrite plists
      → All (λ p. lookup (agent_plist_filename id p.0) dir ≡ some (file p.1)) plists
      → (logs' : List String) × (write_plists can_write can_remove noun id plists dir logs
          ≡ (ok logs', dir))
  unfolding write_plists write_file
  write_plists-again [] dir logs can there = (logs, refl)
  write_plists-again ((n, c) ∷ rest) dir logs (can, later) (here, others) =
      let line = "Generated " <> noun <> " for " <> n <> " in bundle" in
      let (logs', done) = write_plists-again rest dir (logs ++ line ∷ []) later others in
      let f = agent_plist_filename id n in
      let wrote : write_file can_write can_remove f c dir ≡ some dir =
        rw (can, here) (ap some (insert_same f (file c) dir here)) in
      (logs', rw (wrote, write_plists) done)

prune-again :
    (can_write : String → Attempt) (can_remove : String → Bool) (id : String)
    (desired : List String) (dir : Folder)
    → All (λ e. stale can_write can_remove id desired e.0 e.1 ≡ none) dir
    → prune_stale_plists can_write can_remove id desired dir ≡ ([], dir)
unfolding prune_stale_plists
prune-again can_write can_remove id desired [] h = refl
prune-again can_write can_remove id desired ((f, node) ∷ dir) (kept, h) =
    let rest = prune-again can_write can_remove id desired dir h in
    rw (kept, prune_stale_plists, rest) refl

desired-kept :
    (can_write : String → Attempt) (can_remove : String → Bool) (id : String) (desired : Map String)
    (name c : String)
    → lookup name desired ≡ some c
    → stale can_write can_remove id (keys desired) (agent_plist_filename id name) (file c) ≡ none
unfolding stale
desired-kept can_write can_remove id desired name c found =
    rw (
      plist_service_name-agent_plist_filename id name,
      stale,
      any-keys_of_lookup name desired found,
    )

module _ (can_write : String → Attempt) (can_remove : String → Bool) (noun id : String)
    (desired : Map String) (distinct : HasDistinctKeys desired) where
  unchanged :
      (dir : Folder) (lines : List String)
      → write_plists can_write can_remove noun id desired dir [] ≡ (ok lines, dir)
      → prune_stale_plists can_write can_remove id (keys desired) dir ≡ ([], dir)
      → write_and_prune can_write can_remove noun id desired dir ≡ (ok (lines ++ []), dir)
  unfolding write_and_prune
  unchanged dir lines wrote clean =
      let after : Result String (List String) × Folder → Result String (List String) × Folder = λ r.
        elim r.0 [
          | err e ↦ (err e, r.1)
          | ok logs ↦
              let (pruned, dir'') = prune_stale_plists can_write can_remove id (keys desired) r.1 in
              (ok (logs ++ pruned), dir'')
        ] in
      let last : List String × Folder → Result String (List String) × Folder =
        λ p. (ok (lines ++ p.0), p.1) in
      ap after wrote ∙ ap last clean

  -- A directory that was written and pruned stays as it is when the same plists are written again.
  pub write_and_prune-again :
      (dir dir' : Folder) (logs : List String)
      → write_and_prune can_write can_remove noun id desired dir ≡ (ok logs, dir')
      → (logs' : List String) × (write_and_prune can_write can_remove noun id desired dir'
          ≡ (ok logs', dir'))
  unfolding write_and_prune
  write_and_prune-again dir dir' logs h =
      let (written, mid) = write_plists can_write can_remove noun id desired dir [] in
      elim (Outcome-cases written) [
        | inr (e, failed) ↦ absurd (cc (rw (failed, write_and_prune) at h))
        | inl (lines, done) ↦
            let wrote : write_plists can_write can_remove noun id desired dir [] ≡ (ok lines, mid) =
              ap (λ r. (r, mid)) done in
            let pruned = prune_stale_plists can_write can_remove id (keys desired) mid in
            let left : pruned.1 ≡ dir' = ap (λ r. r.1) (rw (done, write_and_prune) at h) in
            let (here, _) =
              write_plists-lookup can_write can_remove noun id desired dir [] lines mid distinct
                wrote in
            let kept =
              All-imp _
                (λ (name, c) (there, self).
                  prune-keeps can_write can_remove id (keys desired) mid _ (file c) there
                    (desired-kept can_write can_remove id desired name c self))
                desired (All-zip _ _ desired here (All-lookup_self desired distinct)) in
            let can =
              write_plists-CanWrite can_write can_remove noun id desired dir mid [] lines wrote in
            let (logs', again) =
              write_plists-again can_write can_remove noun id desired pruned.1 [] can kept in
            let nothing =
              prune-again can_write can_remove id (keys desired) pruned.1
                (prune-All can_write can_remove id (keys desired) mid) in
            rw (← left) (logs' ++ [], unchanged pruned.1 logs' again nothing)
      ]

no_plist_file :
    (id f : String)
    → has_suffix f ".plist" ≡ false
    → (name : String) → f ≢ agent_plist_filename id name
unfolding plist_service_name
no_plist_file id f other name same =
    let unread : plist_service_name id f ≡ none =
      elim (Bool-cases (not (has_prefix f (id <> ".home-stack.")))) [
        | inl foreign ↦ simp foreign refl
        | inr own ↦ simp (own, other) refl
      ] in
    cc (unread, ap (plist_service_name id) same, plist_service_name-agent_plist_filename id name)

every_plist :
    (id f : String) (plists : Map String)
    → has_suffix f ".plist" ≡ false
    → All (λ p. f ≢ agent_plist_filename id p.0) plists
every_plist id f [] other = tt
every_plist id f ((name, c) ∷ rest) other =
    (no_plist_file id f other name, every_plist id f rest other)

-- A folder whose name is no plist's stays.
pub write_and_prune-folder :
    (can_write : String → Attempt) (can_remove : String → Bool) (noun id : String)
    (desired : Map String) (dir dir' : Folder) (logs : List String) (f : String)
    → HasDistinctKeys desired
    → write_and_prune can_write can_remove noun id desired dir ≡ (ok logs, dir')
    → has_suffix f ".plist" ≡ false
    → lookup f dir ≡ some folder
    → lookup f dir' ≡ some folder
unfolding write_and_prune stale
write_and_prune-folder can_write can_remove noun id desired dir dir' logs f distinct h other there =
    let (written, mid) = write_plists can_write can_remove noun id desired dir [] in
    elim (Outcome-cases written) [
      | inr (e, failed) ↦ absurd (cc (rw (failed, write_and_prune) at h))
      | inl (lines, done) ↦
          let left = ap (λ r. r.1) (rw (done, write_and_prune) at h) in
          let (_, frame) =
            write_plists-lookup can_write can_remove noun id desired dir [] lines mid distinct
              (ap (λ r. (r, mid)) done) in
          let apart = every_plist id f desired other in
          ap (lookup f) (sym left)
          ∙ prune-keeps can_write can_remove id (keys desired) mid f folder (frame f apart ∙ there)
              refl
    ]
