-- ===== src/Plists/Converge.antt =====
-- registry.go and engine.go, `diffPlists` after the loop and the pruning of `writeArtifacts`: the
-- preview of an apply that has just run shows nothing left to do.
use home_stack.Prelude.{
  Bool, true, ◌≡◌, refl, sym, ap, ◌∙◌, List, [], ◌∷◌, none, some, String, ◌==◌, eq_iff, eq_refl,
  Map, lookup, insert, lookup-insert, lookup-insert_self, HasDistinctKeys, All, All-imp, All-zip,
  All-lookup, All-lookup_self, any, keys, lookup_of_any-keys, any-keys_of_lookup, Result, ok, err,
  Bool-cases, Option-cases, inl, inr,
}
use home_stack.Plists.{
  Attempt, file, folder, Folder, agent_plist_filename, plist_service_name, read_file, existing_from,
  existing_by_name, compare_plist, compare_plists, count_removed, diff_plists, DiffSection,
  empty_section, stale, write_plists, prune_stale_plists, write_and_prune,
}
use home_stack.Plists.Names.{plist_service_name-agent_plist_filename, read_back}
use home_stack.Plists.Prune.{write_plists-lookup, prune-keeps, prune-All}

module _ (id : String) (desired : Map String) where
  -- An entry of the map of existing plists names a desired service and that service's own file.
  abbrev IsOwn : String × String → Type 0
  IsOwn (name, path) =
      (c : String) × (lookup name desired ≡ some c) × (path ≡ agent_plist_filename id name)

  -- Every plist of the prefix in the directory is one.
  abbrev AllOwn : Folder → Type 0
  AllOwn = All (λ e.
      (c name : String) → e.1 ≡ file c → plist_service_name id e.0 ≡ some name → IsOwn (name, e.0))

  insert-IsOwn :
      (name path : String) (found : Map String)
      → IsOwn (name, path)
      → All IsOwn found
      → All IsOwn (insert name path found)
  unfolding insert
  insert-IsOwn name path [] own h = (own, tt)
  insert-IsOwn name path ((j, p) ∷ found) own (q, h) = elim (Bool-cases (j == name)) [
    | inl same ↦ rw same (own, h)
    | inr other ↦ rw other (q, insert-IsOwn name path found own h)
  ]

  existing_from-IsOwn :
      (dir : Folder) (found : Map String)
      → AllOwn dir
      → All IsOwn found
      → All IsOwn (existing_from id dir found)
  unfolding existing_from
  existing_from-IsOwn [] found h k = k
  existing_from-IsOwn ((f, folder) ∷ dir) found (_, h) k = existing_from-IsOwn dir found h k
  existing_from-IsOwn ((f, file c) ∷ dir) found (own, h) k =
      elim (Option-cases (plist_service_name id f)) [
        | inl foreign ↦ rw (foreign, existing_from) (existing_from-IsOwn dir found h k)
        | inr (name, read) ↦
            rw (read, existing_from)
              (existing_from-IsOwn dir (insert name f found) h
                (insert-IsOwn name f found (own c name refl read) k))
      ]

abbrev IsFound : String → Map String → Type 0
IsFound name found = (path : String) × (lookup name found ≡ some path)

insert-IsFound :
    (k name path : String) (found : Map String)
    → IsFound name found
    → IsFound name (insert k path found)
insert-IsFound k name path found (p, h) = elim (Bool-cases (k == name)) [
  | inl same ↦ (path, lookup-insert k name path found ∙ rw same)
  | inr other ↦ (p, lookup-insert k name path found ∙ rw other h)
]

existing_from-keeps :
    (id name : String) (dir : Folder) (found : Map String)
    → IsFound name found
    → IsFound name (existing_from id dir found)
unfolding existing_from
existing_from-keeps id name [] found h = h
existing_from-keeps id name ((f, folder) ∷ dir) found h = existing_from-keeps id name dir found h
existing_from-keeps id name ((f, file c) ∷ dir) found h =
    elim (Option-cases (plist_service_name id f)) [
      | inl foreign ↦ rw (foreign, existing_from) (existing_from-keeps id name dir found h)
      | inr (n, read) ↦
          rw (read, existing_from)
            (existing_from-keeps id name dir (insert n f found) (insert-IsFound n name f found h))
    ]

existing_from-finds :
    (id name f c : String) (dir : Folder) (found : Map String)
    → lookup f dir ≡ some (file c)
    → plist_service_name id f ≡ some name
    → IsFound name (existing_from id dir found)
unfolding existing_from lookup
existing_from-finds id name f c [] found h r = absurd (cc h)
existing_from-finds id name f c ((g, folder) ∷ dir) found h r = elim (Bool-cases (g == f)) [
  | inl same ↦ absurd (cc (rw same at h))
  | inr other ↦ existing_from-finds id name f c dir found (rw other at h) r
]
existing_from-finds id name f c ((g, file c') ∷ dir) found h r = elim (Bool-cases (g == f)) [
  | inl same ↦
      let read : plist_service_name id g ≡ some name =
        ap (plist_service_name id) ((eq_iff g f).0 same) ∙ r in
      rw (read, existing_from)
        (existing_from-keeps id name dir (insert name g found) (g, lookup-insert_self name g found))
  | inr other ↦ existing_from-finds id name f c dir _ (rw other at h) r
]

compare_plists-same :
    (dir : Folder) (existing desired : Map String) (d : DiffSection)
    → All
        (λ e. (path : String) × (lookup e.0 existing ≡ some path) × (read_file dir path ≡ some e.1))
        desired
    → compare_plists dir existing desired d ≡ d
unfolding compare_plists compare_plist
compare_plists-same dir existing [] d h = refl
compare_plists-same dir existing ((name, c) ∷ rest) d ((path, found, reads), h) =
    rw (found, compare_plist, reads, eq_refl) (compare_plists-same dir existing rest d h)

count_removed-none :
    (desired existing : Map String) (d : DiffSection)
    → All (λ e. (c : String) × (lookup e.0 desired ≡ some c)) existing
    → count_removed desired existing d ≡ d
unfolding count_removed
count_removed-none desired [] d h = refl
count_removed-none desired ((name, path) ∷ rest) d ((c, found), h) =
    rw (found, count_removed) (count_removed-none desired rest d h)

module _ (can_write : String → Attempt) (can_remove : String → Bool)
    (removes : (f : String) → can_remove f ≡ true) (id : String) (desired : Map String)
    (no_plist : lookup "plist" desired ≡ none) where
  kept-IsOwn :
      (f c name : String)
      → stale can_write can_remove id (keys desired) f (file c) ≡ none
      → plist_service_name id f ≡ some name
      → IsOwn id desired (name, f)
  unfolding stale
  kept-IsOwn f c name kept read = elim (Bool-cases (any (λ n. n == name) (keys desired))) [
    | inr gone ↦ absurd (cc (rw (read, stale, gone, removes f) at kept))
    | inl listed ↦
        let (c', found) = lookup_of_any-keys name desired listed in
        (
          c',
          found,
          elim (read_back id f name read) [
            | inl e ↦ e
            | inr (_, e) ↦ absurd (cc (no_plist, rw e at found))
          ],
        )
  ]

  pruned-AllOwn :
      (dir : Folder)
      → All (λ e. stale can_write can_remove id (keys desired) e.0 e.1 ≡ none) dir
      → AllOwn id desired dir
  pruned-AllOwn dir h =
      All-imp _ (λ (f, node) kept c name e read. kept-IsOwn f c name (rw e at kept) read) dir h

  own_not_stale :
      (name c : String)
      → lookup name desired ≡ some c
      → stale can_write can_remove id (keys desired) (agent_plist_filename id name) (file c) ≡ none
  unfolding stale
  own_not_stale name c found = rw (
    plist_service_name-agent_plist_filename id name,
    stale,
    any-keys_of_lookup name desired found,
  )

  reads_own :
      (dir : Folder) (name c : String)
      → AllOwn id desired dir
      → lookup (agent_plist_filename id name) dir ≡ some (file c)
      → (path : String) × (lookup name (existing_from id dir []) ≡ some path)
        × (read_file dir path ≡ some c)
  unfolding read_file
  reads_own dir name c own present =
      let (path, found) =
        existing_from-finds id name _ c dir [] present
          (plist_service_name-agent_plist_filename id name) in
      let (_, _, same) =
        All-lookup _ (existing_from id dir []) name path
          (existing_from-IsOwn id desired dir [] own tt) found in
      (path, found, rw (same, present))

  -- A directory that holds the desired plists, and no stale one, has nothing left to do.
  settled :
      (dir : Folder)
      → AllOwn id desired dir
      → All (λ p. lookup (agent_plist_filename id p.0) dir ≡ some (file p.1)) desired
      → diff_plists dir id desired ≡ empty_section
  unfolding diff_plists existing_by_name
  settled dir own present =
      let owned = existing_from-IsOwn id desired dir [] own tt in
      ap (count_removed desired _) (
        compare_plists-same dir _ desired empty_section
          (All-imp _ (λ (name, c) present. reads_own dir name c own present) desired present))
      ∙ count_removed-none desired _ empty_section
          (All-imp _ (λ e (c, found, _). (c, found)) _ owned)

module _ (can_write : String → Attempt) (can_remove : String → Bool)
    (removes : (f : String) → can_remove f ≡ true) (noun id : String) (desired : Map String)
    (no_plist : lookup "plist" desired ≡ none) where
  -- The same texts in another order: what is present and whose it is stays so.
  reordered-present :
      (dir : Folder) (other : Map String)
      → ((k : String) → lookup k other ≡ lookup k desired)
      → HasDistinctKeys other
      → All (λ p. lookup (agent_plist_filename id p.0) dir ≡ some (file p.1)) desired
      → All (λ p. lookup (agent_plist_filename id p.0) dir ≡ some (file p.1)) other
  reordered-present dir other same d present =
      All-imp _
        (λ (name, c) self.
          All-lookup (λ p. lookup (agent_plist_filename id p.0) dir ≡ some (file p.1)) desired name
            c present (sym (same name) ∙ self))
        other (All-lookup_self other d)

  reordered-AllOwn :
      (dir : Folder) (other : Map String)
      → ((k : String) → lookup k other ≡ lookup k desired)
      → AllOwn id desired dir
      → AllOwn id other dir
  reordered-AllOwn dir other same own =
      All-imp _
        (λ (f, node) owned c name e read.
          let (c', found, path) = owned c name e read in (c', same name ∙ found, path))
        dir own

  -- After an apply that wrote the desired plists of distinct services, none of them called "plist",
  -- where every removal succeeds, a preview that has the same texts in any order finds nothing to add,
  -- change or remove.
  pub diff_plists-write_and_prune :
      (dir dir' : Folder) (logs : List String) (other : Map String)
      → HasDistinctKeys desired
      → HasDistinctKeys other
      → ((k : String) → lookup k other ≡ lookup k desired)
      → write_and_prune can_write can_remove noun id desired dir ≡ (ok logs, dir')
      → diff_plists dir' id other ≡ empty_section
  unfolding write_and_prune
  diff_plists-write_and_prune dir dir' logs other d d' same h =
      go (write_plists can_write can_remove noun id desired dir []) refl
    where
      go :
          (r : Result String (List String) × Folder)
          → write_plists can_write can_remove noun id desired dir [] ≡ r
          → diff_plists dir' id other ≡ empty_section
      go (err e, mid) w = absurd (cc (rw (w, write_and_prune) at h))
      go (ok written, mid) w =
          let pruned = prune_stale_plists can_write can_remove id (keys desired) mid in
          let left : pruned.1 ≡ dir' = ap (λ r. r.1) (rw (w, write_and_prune, w) at h) in
          let (wrote, _) =
            write_plists-lookup can_write can_remove noun id desired dir [] written mid d w in
          let kept =
            All-imp _
              (λ (name, c) (here, self).
                prune-keeps can_write can_remove id (keys desired) mid _ (file c) here
                  (own_not_stale can_write can_remove removes id desired no_plist name c self))
              desired (All-zip _ _ desired wrote (All-lookup_self desired d)) in
          let own =
            pruned-AllOwn can_write can_remove removes id desired no_plist pruned.1
              (prune-All can_write can_remove id (keys desired) mid) in
          rw (← left) (
            settled can_write can_remove removes id other (same "plist" ∙ no_plist) pruned.1
              (reordered-AllOwn pruned.1 other same own)
              (reordered-present pruned.1 other same d' kept))
