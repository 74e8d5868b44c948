-- ===== src/Tests/Runtime.antt =====
-- The theorems on health and on the installed property lists.
use home_stack.Prelude.{
  ℕ, Bool, true, false, ◌≡◌, ◌≢◌, ◌↔◌, ◌⊎◌, inl, inr, refl, List, [], ◌∷◌, Option, none, some,
  String, ◌==◌, ◌<>◌, lookup, Map, All, equal_fold, length, ok, HasDistinctKeys,
}
use home_stack.Registry.{Service, Registry}
use home_stack.Health.{
  LaunchdService, CheckStatus, Probes, Incident, ServiceStatus, service_status, collect_services,
  is_optional_service, incident_of, derive_incidents, overall_state_from_incidents, Counts,
  count_service_states,
}
use home_stack.Health.Stack.{IsCalm}
use home_stack.Health.Routes.{
  Json, string, array, object, value, no_values, member, no_members, find_host, OccursIn,
  find_host_iff,
}
use home_stack.Plists.{
  Attempt, whole, Folder, Node, file, folder, agent_plist_filename, plist_service_name, diff_plists,
  empty_section, write_and_prune, prune_stale_plists,
}
use home_stack.Plists.Names.{plist_service_name_iff}
use home_stack.Plists.Prune.{prune_foreign}
use home_stack.Tests.{house}

abbrev in_quotes : String → String
in_quotes s = "\"" <> s <> "\""

abbrev check : Bool → String → CheckStatus
check passed target = record { passed = passed; state = ""; target = target; details = "" }

abbrev all_well : Probes
all_well = record {
  check_port = check true;
  check_route = check true;
  check_http = λ url basic_auth. check true url;
}

house-IsCalm : All IsCalm (collect_services all_well [] "home.example.com" house)
unfolding collect_services home_stack.Prelude.sort_by home_stack.Health.statuses service_status
    home_stack.Health.derive_overall home_stack.Health.settle home_stack.Health.launchd_verdict
    lookup home_stack.Health.any_failed home_stack.Registry.routable_host
    home_stack.Registry.resolved_host home_stack.Prelude.has_prefix
house-IsCalm = (inl refl, (inl refl, (inl refl, tt)))

abbrev caddy_config : Json
caddy_config =
    object (member "match" (array (value (string "notes.home.example.com") no_values)) no_members)

find_host_iff_example :
    (find_host caddy_config "notes.home.example.com" ≡ true)
    ↔ ((s : String) × OccursIn s caddy_config × (equal_fold s "notes.home.example.com" ≡ true))
find_host_iff_example = find_host_iff caddy_config "notes.home.example.com"

abbrev stem_file : String
stem_file = "com.example.home-stack.plist"

abbrev plist_service : String
plist_service = "plist"

plist_service_name_iff_example :
    (plist_service_name "com.example" stem_file ≡ some plist_service) ↔ (
      (stem_file ≡ agent_plist_filename "com.example" plist_service)
      ⊎ ((stem_file ≡ "com.example" <> ".home-stack.plist") × (plist_service ≡ plist_service)))
plist_service_name_iff_example = plist_service_name_iff "com.example" stem_file plist_service

abbrev goes : String → Attempt
goes f = whole

abbrev always : String → Bool
always f = true

-- The folder of the agents before an apply: a stale plist, and one of another program.
abbrev agents : Folder
agents =
    ("com.example.home-stack.old.plist", file "<old/>") ∷ ("org.other.plist", file "<other/>") ∷ []

abbrev desired : Map String
desired = ("notes", "<notes/>") ∷ []

abbrev agents_after : Folder
agents_after =
    ("org.other.plist", file "<other/>")
    ∷ ("com.example.home-stack.notes.plist", file "<notes/>")
    ∷ []

abbrev apply_log : List String
apply_log = "Generated plist for notes in bundle" ∷ "Removed stale plist for old" ∷ []

applied :
    write_and_prune goes always "plist" "com.example" desired agents ≡ (ok apply_log, agents_after)
unfolding write_and_prune home_stack.Plists.write_plists home_stack.Plists.write_file lookup
    agent_plist_filename prune_stale_plists home_stack.Prelude.insert home_stack.Plists.stale
    plist_service_name
applied = refl

not_ours : (name : String) → "org.other.plist" ≢ "com.example" <> ".home-stack." <> name <> ".plist"
unfolding agent_plist_filename plist_service_name
not_ours name same =
    let read = (plist_service_name_iff "com.example" "org.other.plist" name).1 (inl same) in
    absurd (cc read)

prune_foreign_example :
    lookup "org.other.plist" (prune_stale_plists goes always "com.example" ("notes" ∷ []) agents).1
    ≡ some (file "<other/>")
unfolding lookup
prune_foreign_example =
    prune_foreign goes always "com.example" ("notes" ∷ []) agents "org.other.plist"
      (file "<other/>") refl (inr (inl (not_ours, λ same. cc)))
