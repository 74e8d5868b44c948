-- ===== src/Deploy/Settled.antt =====
-- registry.go, `Diff` after `Apply`: the preview of a deploy that has just run.
use home_stack.Prelude.{
  true, false, ◌≡◌, refl, ◌∙◌, Permᴰ, Option, List, [], ◌∷◌, none, some, String, ◌==◌, Map, lookup,
  join, ap, HasDistinctKeys, ok,
}
use home_stack.Registry.{Service, Registry}
use home_stack.Plists.{has_changes, empty_section, merge_diff_sections}
use home_stack.Plists.Converge.{diff_plists-write_and_prune}
use home_stack.FileDiff.Lines.{diff_files-has_changes}
use home_stack.FileDiff.Same.{SameKeys, diff_catalog-has_changes}
use home_stack.Artifacts.{GeneratedArtifacts, Bundle, Storage, build_catalog, write_artifacts}
use home_stack.Artifacts.Reordered.{SameArtifacts, build_catalog-keys, desired_artifacts-perm}
use home_stack.Artifacts.Again.{write_artifacts-again}
use home_stack.Artifacts.Written.{write_artifacts-IsWritten}
use home_stack.Artifacts.Put.{put_all_foreign, put_all-HasDistinctKeys}
use home_stack.Artifacts.Plists.{agent_plist_of, daemon_plist_of, desired_artifacts_fields}
use home_stack.Deploy.{Host, DeployDiff, load_profile, apply, compare_bundle, diff_loaded, diff}
use home_stack.Deploy.Ready.{raise-ok, prepare_apply-IsReady}
use home_stack.Deploy.Reordered.{IsReordering, later_host, load_profile-perm}
use home_stack.Deploy.Agree.{apply-written}

-- A catalog that is written and read back has the services that were written.
abbrev pub ReadsBack : Host → Type 0
ReadsBack h =
    (m : Map Service) (text : String)
    → h.marshal m ≡ some text
    → (back : Map Service) × (h.unmarshal text ≡ some back) × SameKeys back m

quiet_launchd : has_changes (merge_diff_sections (empty_section ∷ empty_section ∷ [])) ≡ false
unfolding has_changes merge_diff_sections
quiet_launchd = refl

module _ (h : Host) (bundle_dir profile : String) (disk : Storage)
    (removes_agents : (f : String) → disk.removes_agent f ≡ true)
    (removes_daemons : (f : String) → disk.removes_daemon f ≡ true) (reads : ReadsBack h) where
  settled_bundle :
      (id : String) (a other : GeneratedArtifacts) (catalog listed : Map Service) (b b' : Bundle)
      (logs : List String)
      → SameArtifacts h.getenv h.quote h.marshal profile bundle_dir
          (h.getenv "HOME_STACK_OWNER_HOME")
          id
          (h.getenv "HOME_STACK_PARENT_DOMAIN")
          other
          a
      → SameKeys catalog listed
      → HasDistinctKeys other.agent_plists
      → HasDistinctKeys other.daemon_plists
      → HasDistinctKeys a.agent_plists
      → HasDistinctKeys a.daemon_plists
      → lookup "plist" a.agent_plists ≡ none
      → lookup "plist" a.daemon_plists ≡ none
      → h.marshal catalog ≡ some a.catalog
      → write_artifacts disk id a b ≡ (ok logs, b')
      → (compare_bundle h bundle_dir id listed other b').changed ≡ false
  unfolding compare_bundle
  settled_bundle id a other catalog listed b b' logs (caddy', _, same_agents, same_daemons) keys
        agents' daemons' agents daemons no_agent no_daemon text wrote =
      let (caddy, same, (before, _, pruned), (_, pruned')) =
        write_artifacts-IsWritten disk id a b b' logs wrote in
      let (back, read, keys_back) = reads catalog a.catalog text in
      let quiet_agents =
        diff_plists-write_and_prune disk.writes_agent disk.removes_agent removes_agents "plist" id
          a.agent_plists no_agent before b'.agents _ other.agent_plists agents agents' same_agents
          pruned in
      let quiet_daemons =
        diff_plists-write_and_prune disk.writes_daemon disk.removes_daemon removes_daemons
          "daemon plist" id a.daemon_plists no_daemon b.daemons b'.daemons _ other.daemon_plists
          daemons daemons' same_daemons pruned' in
      let quiet_file = (diff_files-has_changes "Caddyfile" a.caddyfile a.caddyfile).1 (λ i. refl) in
      let quiet_catalog =
        (diff_catalog-has_changes h.unmarshal a.catalog back listed read).1
          (λ k. keys_back k ∙ keys k) in
      rw
        (caddy, same, caddy', quiet_agents, quiet_daemons, quiet_file, quiet_catalog, quiet_launchd)
        refl

  -- After an apply that succeeds, for a profile with a name and no service called "plist", the preview of
  -- the same profile succeeds and shows no change, in whatever order the registry's map is iterated then;
  -- stale files can be removed, and JSON writes a catalog the same way in every order and gives its
  -- services back.
  pub diff-apply :
      (parse : String → Option Registry)
      → IsReordering h.sys parse
      → ((m n : Map Service) → Permᴰ m n → h.marshal m ≡ h.marshal n)
      → (profile == "") ≡ false
      → ((r : Registry)
          → load_profile h bundle_dir profile ≡ ok r
          → lookup "plist" r.services ≡ none)
      → (log : String) (b b' : Bundle) → apply h bundle_dir disk profile b ≡ (ok log, b')
      → (d : DeployDiff) × (diff (later_host h bundle_dir profile parse) bundle_dir profile b'
          ≡ ok d)
        × (d.changed ≡ false)
  unfolding diff diff_loaded lookup compare_bundle
  diff-apply parse reorders sorts named no_plist log b b' done =
      let (a, logs, ready, wrote, _) = apply-written h bundle_dir disk profile log b b' done in
      let (r, (_, loaded, _, _, domain, _, made)) =
        prepare_apply-IsReady h bundle_dir profile a ready in
      let (distinct, (s, loaded', p)) =
        load_profile-perm h bundle_dir profile parse r reorders loaded in
      let id = h.getenv "HOME_STACK_IDENTIFIER_PREFIX" in
      let parent_domain = h.getenv "HOME_STACK_PARENT_DOMAIN" in
      let owner_home = h.getenv "HOME_STACK_OWNER_HOME" in
      let email = h.getenv "HOME_STACK_ACME_EMAIL" in
      let tailnet_ip = h.getenv "HOME_STACK_TAILNET_IP" in
      let made' = raise-ok _ _ a made in
      let (_, agents, daemons, text) =
        desired_artifacts_fields h.getenv h.quote h.marshal profile bundle_dir owner_home id
          parent_domain r email tailnet_ip a made' in
      let (other, again, same) =
        desired_artifacts-perm h.getenv h.quote h.marshal profile bundle_dir owner_home id
          parent_domain r s email tailnet_ip a sorts p distinct made' in
      let (_, agents', daemons', _) =
        desired_artifacts_fields h.getenv h.quote h.marshal profile bundle_dir owner_home id
          parent_domain s email tailnet_ip other again in
      let agent_of =
        agent_plist_of h.getenv h.quote h.marshal profile bundle_dir owner_home id parent_domain in
      let daemon_of =
        daemon_plist_of h.getenv h.quote h.marshal profile bundle_dir owner_home id parent_domain in
      let free = no_plist r loaded in
      (
        compare_bundle h bundle_dir id (build_catalog s parent_domain) other b',
        rw (named, loaded', domain, again) refl,
        settled_bundle id a other (build_catalog r parent_domain) (build_catalog s parent_domain) b
            b' logs same (λ k. build_catalog-keys r s parent_domain k p distinct)
            (rw agents' (put_all-HasDistinctKeys agent_of s.services [] tt))
            (rw daemons' (put_all-HasDistinctKeys daemon_of s.services [] tt))
            (rw agents (put_all-HasDistinctKeys agent_of r.services [] tt))
            (rw daemons (put_all-HasDistinctKeys daemon_of r.services [] tt))
            (rw agents (put_all_foreign agent_of r.services [] "plist" free))
            (rw daemons (put_all_foreign daemon_of r.services [] "plist" free)) text wrote,
      )

-- An apply is idempotent: after one that succeeds, another one with the same profile and the same host
-- succeeds too and leaves the bundle exactly as it is.
pub apply-again :
    (h : Host) (bundle_dir profile : String) (disk : Storage) (log : String) (b b' : Bundle)
    → apply h bundle_dir disk profile b ≡ (ok log, b')
    → (log' : String) × (apply h bundle_dir disk profile b' ≡ (ok log', b'))
unfolding apply
apply-again h bundle_dir profile disk log b b' done =
    let (a, logs, ready, wrote, _) = apply-written h bundle_dir disk profile log b b' done in
    let (r, (_, _, _, _, _, _, made)) = prepare_apply-IsReady h bundle_dir profile a ready in
    let id = h.getenv "HOME_STACK_IDENTIFIER_PREFIX" in
    let parent_domain = h.getenv "HOME_STACK_PARENT_DOMAIN" in
    let owner_home = h.getenv "HOME_STACK_OWNER_HOME" in
    let (_, agents, daemons, _) =
      desired_artifacts_fields h.getenv h.quote h.marshal profile bundle_dir owner_home id
        parent_domain r (h.getenv "HOME_STACK_ACME_EMAIL") (h.getenv "HOME_STACK_TAILNET_IP") a
        (raise-ok _ _ a made) in
    let agent_of =
      agent_plist_of h.getenv h.quote h.marshal profile bundle_dir owner_home id parent_domain in
    let daemon_of =
      daemon_plist_of h.getenv h.quote h.marshal profile bundle_dir owner_home id parent_domain in
    let (logs', again) =
      write_artifacts-again disk id a
        (rw agents (put_all-HasDistinctKeys agent_of r.services [] tt))
        (rw daemons (put_all-HasDistinctKeys daemon_of r.services [] tt)) b b' logs wrote in
    (join logs' "\n", rw (ready, apply, ap (λ r. r.0) again, ap (λ r. r.1) again) refl)
