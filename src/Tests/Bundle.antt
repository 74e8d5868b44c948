-- ===== src/Tests/Bundle.antt =====
-- The theorems on the generated artifacts and on a deploy, for a profile with a wiki, with a JSON
-- library that writes the names of a catalog only.
use home_stack.Prelude.{
  Bool, true, false, ◌&&◌, ◌≡◌, refl, sym, ap, ap₂, ◌∙◌, List, [], ◌∷◌, Option, none, some, String,
  ◌==◌, ◌<>◌, eq_iff, eq_refl, Map, lookup, keys, map, join, split, if◌then◌else◌, is_some, Result,
  ok, err, ok_inj, ◌↔◌, ◌⊎◌, has_prefix, Bool-cases, Option-cases, inl, inr, arith, ◌||◌, any,
  sort_strings, sort_strings-perm, perm-keys, insert_by, sort_by, text_leb, Permᴰ,
}
use mathlib.Core.Option.{some_inj}
use home_stack.Deploy.Reordered.{IsReordering, later_host}
use home_stack.Artifacts.Reordered.{SameArtifacts, desired_artifacts-perm}
use home_stack.Registry.{Service, Registry}
use home_stack.Plists.{whole, file, folder, has_changes}
use home_stack.Edits.{File, missing, holds, System, load_registry}
use home_stack.FileDiff.{diff_files, diff_catalog}
use home_stack.FileDiff.Lines.{SameLines, diff_files-has_changes}
use home_stack.FileDiff.Same.{SameKeys, diff_catalog-has_changes}
use home_stack.Launchd.{Environment, pins, agent_env}
use home_stack.Launchd.Pins.{agent_env-pins}
use home_stack.Artifacts.{GeneratedArtifacts, Bundle, Storage, desired_artifacts}
use home_stack.Deploy.{
  Host, DeployDiff, load_profile, prepare_apply, apply, sync_system, diff, DeployError, not_written,
  not_reloaded,
}
use home_stack.Deploy.Agree.{sync_system-apply, failed_unwritten}
use home_stack.Deploy.Settled.{ReadsBack, diff-apply, apply-again}
use home_stack.Tests.{blank, notes, house, house-valid}

abbrev pub wiki : Service
wiki = record blank { subdomain = "wiki"; upstream = "127.0.0.1:8090" }

abbrev pub docs : Service
docs = record blank { subdomain = "docs"; upstream = "127.0.0.1:8091" }

abbrev pub profile : Registry
profile = record { services = ("wiki", wiki) ∷ ("docs", docs) ∷ [] }

abbrev docs_first : Registry
docs_first = record { services = ("docs", docs) ∷ ("wiki", wiki) ∷ [] }

same_names : List String → List String → Bool
same_names [] [] = true
same_names [] (y ∷ ys) = false
same_names (x ∷ xs) [] = false
same_names (x ∷ xs) (y ∷ ys) = x == y && same_names xs ys

same_names-eq : (xs ys : List String) → same_names xs ys ≡ true → xs ≡ ys
unfolding same_names
same_names-eq [] [] h = refl
same_names-eq [] (y ∷ ys) h = absurd (cc h)
same_names-eq (x ∷ xs) [] h = absurd (cc h)
same_names-eq (x ∷ xs) (y ∷ ys) h =
    ap₂ (λ a b. a ∷ b) ((eq_iff x y).0 (ground arith)) (same_names-eq xs ys (ground arith))

-- The names of a catalog in order, one to a line, if they can be told apart again.
pub write_names : Map Service → Option String
write_names m =
    let names = sort_strings (keys m) in
    let text = join names "\n" in if same_names (split text b'\n') names then some text else none

abbrev named : List String → Map Service
named [] = []
named (name ∷ names) = (name, blank) ∷ named names

abbrev read_names : String → Option (Map Service)
read_names text = some (named (split text b'\n'))

any-insert_by :
    (k x : String) (l : List String)
    → any (λ j. j == k) (insert_by (λ s. s) x l) ≡ ((x == k) || any (λ j. j == k) l)
unfolding insert_by
any-insert_by k x [] = refl
any-insert_by k x (y ∷ l) = elim (Bool-cases (text_leb x y)) [
  | inl e ↦ simp e refl
  | inr e ↦ simp e (ground (arith, any-insert_by k x l))
]

any-sort_strings :
    (k : String) (l : List String) → any (λ j. j == k) (sort_strings l) ≡ any (λ j. j == k) l
unfolding sort_by
any-sort_strings k [] = refl
any-sort_strings k (x ∷ l) =
    any-insert_by k x (sort_strings l) ∙ ap (λ b. (x == k) || b) (any-sort_strings k l)

named-keys :
    (k : String) (names : List String) → is_some (lookup k (named names)) ≡ any (λ j. j == k) names
unfolding lookup
named-keys k [] = refl
named-keys k (name ∷ names) = elim (Bool-cases (name == k)) [
  | inl same ↦ simp same refl
  | inr other ↦ simp other (named-keys k names)
]

keys-lookup : (k : String) (m : Map Service) → any (λ j. j == k) (keys m) ≡ is_some (lookup k m)
unfolding lookup
keys-lookup k [] = refl
keys-lookup k ((name, svc) ∷ m) = elim (Bool-cases (name == k)) [
  | inl same ↦ simp same refl
  | inr other ↦ simp other (keys-lookup k m)
]

named-SameKeys : (m : Map Service) → SameKeys (named (sort_strings (keys m))) m
named-SameKeys m k =
    named-keys k (sort_strings (keys m)) ∙ any-sort_strings k (keys m) ∙ keys-lookup k m

abbrev settings : Map String
settings =
    ("HOME_STACK_PARENT_DOMAIN", "home.example.com")
    ∷ ("HOME_STACK_IDENTIFIER_PREFIX", "com.example")
    ∷ ("HOME_STACK_ACME_EMAIL", "me@example.com")
    ∷ ("HOME_STACK_TAILNET_IP", "100.64.0.1")
    ∷ ("HOME_STACK_OWNER_HOME", "/Users/owner")
    ∷ ("HOME_STACK_PROFILE", "home")
    ∷ []

unfoldable pub getenv : Environment
getenv name = elim (lookup name settings) [ none ↦ "" | some value ↦ value ]

abbrev pub library : System
library = record {
  marshal = λ r. none;
  unmarshal = λ text. some profile;
  parent_domain = "";
  can_write = true;
  partial = missing;
  can_rename = true;
  can_remove = true;
}

abbrev pub host : Host
host = record {
  sys = library;
  registries = λ path. holds "services: wiki";
  getenv = getenv;
  quote = λ s. "\"" <> s <> "\"";
  marshal = write_names;
  unmarshal = read_names;
}

host-ReadsBack : ReadsBack host
unfolding write_names
host-ReadsBack m text h =
    let names = sort_strings (keys m) in
    elim (Bool-cases (same_names (split (join names "\n") b'\n') names)) [
      | inr mixed ↦ absurd (cc (rw mixed at h))
      | inl told ↦
          let e = same_names-eq _ _ told in
          let t : join names "\n" ≡ text =
            ap (λ o. elim o [ none ↦ "" | some x ↦ x ]) (rw told at h) in
          (named (split text b'\n'), refl, rw (← t, e) (named-SameKeys m))
    ]

abbrev pub disk : Storage
disk = record {
  writes_caddyfile = true;
  partial_caddyfile = missing;
  makes_launchd = true;
  makes_daemons = true;
  writes_agent = λ f. whole;
  removes_agent = λ f. true;
  writes_daemon = λ f. whole;
  removes_daemon = λ f. true;
  writes_catalog = true;
  partial_catalog = missing;
}

-- An old agent is there.
abbrev pub bundle : Bundle
bundle = record {
  caddyfile = holds "";
  agents = ("com.example.home-stack.gone.plist", file "<gone/>") ∷ [];
  daemons = [];
  catalog = missing;
}

abbrev deployed : Result DeployError String × Bundle
deployed = apply host "/opt/home-stack" disk "home" bundle

abbrev log : String
log =
    "Generated Caddyfile\nGenerated plist for wiki in bundle\nGenerated plist for docs in bundle\nRemoved stale plist for gone\nGenerated catalog.json"

applied : deployed ≡ (ok log, deployed.1)
unfolding apply home_stack.Deploy.prepare_apply load_registry home_stack.Edits.check_loaded getenv
    lookup home_stack.Validate.validate home_stack.Validate.check_services
    home_stack.Validate.Checks.check_service home_stack.Validate.Tokens.validate_display_token
    home_stack.Validate.check_broker_enabled home_stack.Validate.validate_identifier_prefix
    desired_artifacts home_stack.Artifacts.check_inputs home_stack.Artifacts.add_plists
    home_stack.Artifacts.add_plist home_stack.Registry.generates_agent_plist
    home_stack.Launchd.generate_launchd_plist write_names same_names split join
    home_stack.Artifacts.build_catalog home_stack.Artifacts.write_artifacts
    home_stack.Artifacts.make_dirs home_stack.Artifacts.make_daemons
    home_stack.Artifacts.write_agents home_stack.Plists.write_and_prune
    home_stack.Plists.write_plists home_stack.Prelude.insert home_stack.Plists.write_file
    home_stack.Plists.agent_plist_filename home_stack.Artifacts.write_daemons
    home_stack.Artifacts.write_catalog home_stack.Plists.prune_stale_plists home_stack.Plists.stale
    home_stack.Plists.plist_service_name sort_by
applied = refl

abbrev dir : String
dir = "/opt/home-stack"

wiki-loads : load_profile host dir "home" ≡ ok profile
unfolding load_registry home_stack.Edits.check_loaded getenv lookup home_stack.Validate.validate
    home_stack.Validate.check_services home_stack.Validate.Checks.check_service
    home_stack.Validate.Tokens.validate_display_token home_stack.Validate.check_broker_enabled
wiki-loads = refl

wiki_alone : (r : Registry) → load_profile host dir "home" ≡ ok r → lookup "plist" r.services ≡ none
unfolding lookup
wiki_alone r loaded = let same : profile ≡ r = ok_inj (sym wiki-loads ∙ loaded) in rw (← same) refl

abbrev parse_docs_first : String → Option Registry
parse_docs_first text = some docs_first

docs_first-IsReordering : IsReordering host.sys parse_docs_first
unfolding lookup
docs_first-IsReordering text r parsed =
    let same : profile ≡ r = some_inj.0 parsed in
    rw (← same) ((refl, (refl, tt)), (docs_first, refl, Permᴰ.swap refl refl))

writes_sorted : (m n : Map Service) → Permᴰ m n → host.marshal m ≡ host.marshal n
unfolding write_names
writes_sorted m n p = rw (sort_strings-perm (perm-keys p)) refl

diff-apply_example :
    (d : DeployDiff) × (diff (later_host host dir "home" parse_docs_first) dir "home" deployed.1
      ≡ ok d)
    × (d.changed ≡ false)
diff-apply_example =
    diff-apply host dir "home" disk (λ f. refl) (λ f. refl) host-ReadsBack parse_docs_first
      docs_first-IsReordering writes_sorted refl wiki_alone log bundle deployed.1 applied

apply-again_example :
    (log' : String) × (apply host dir disk "home" deployed.1 ≡ (ok log', deployed.1))
apply-again_example = apply-again host dir "home" disk log bundle deployed.1 applied

sync_system-apply_example :
    ((text : String) × (sync_system host dir disk (ok "") bundle ≡ (ok text, deployed.1))) ↔ (
      ((made : String) × (apply host dir disk "home" bundle ≡ (ok made, deployed.1)))
      × ((out : String) × (◌≡◌ {A = Result String String} (ok "") (ok out))))
unfolding getenv lookup
sync_system-apply_example = sync_system-apply host dir disk (ok "") bundle deployed.1

-- A disk that is full.
abbrev full_disk : Storage
full_disk = record disk { writes_caddyfile = false }

abbrev cut_bundle : Bundle
cut_bundle = record bundle { caddyfile = missing }

failed_unwritten_example :
    (apply host dir full_disk "home" bundle
        ≡ (err (not_written "failed to write Caddyfile"), cut_bundle)
      → (cut_bundle ≡ bundle)
        ⊎ ((text : String) × (not_written "failed to write Caddyfile" ≡ not_written text)))
    × (sync_system host dir full_disk (ok "") bundle
          ≡ (err (not_written "failed to write Caddyfile"), cut_bundle)
        → (cut_bundle ≡ bundle)
          ⊎ ((text : String) × ((not_written "failed to write Caddyfile" ≡ not_written text)
                ⊎ (not_written "failed to write Caddyfile" ≡ not_reloaded text))))
failed_unwritten_example =
    failed_unwritten host dir full_disk "home" (ok "") (not_written "failed to write Caddyfile")
      bundle cut_bundle

diff_files-has_changes_example :
    (has_changes (diff_files "Caddyfile" (holds "a\n\n") "a") ≡ false)
    ↔ SameLines (split "a\n\n" b'\n') (split "a" b'\n')
diff_files-has_changes_example = diff_files-has_changes "Caddyfile" "a\n\n" "a"

diff_catalog-has_changes_example :
    (has_changes (diff_catalog read_names (holds "wiki") profile.services) ≡ false)
    ↔ SameKeys (("wiki", blank) ∷ []) profile.services
unfolding split
diff_catalog-has_changes_example =
    diff_catalog-has_changes read_names "wiki" (("wiki", blank) ∷ []) profile.services refl

abbrev artifacts : GeneratedArtifacts
artifacts = elim (prepare_apply host dir "home") [
  | ok a ↦ a
  | err e ↦ record { caddyfile = ""; agent_plists = []; daemon_plists = []; catalog = "" }
]

generated :
    desired_artifacts getenv host.quote write_names profile "home" dir "/Users/owner" "com.example"
      "home.example.com" "me@example.com" "100.64.0.1"
    ≡ ok artifacts
unfolding desired_artifacts home_stack.Artifacts.check_inputs
    home_stack.Validate.Tokens.validate_caddy_token home_stack.Prelude.contains_any
    home_stack.Validate.Tokens.validate_host home_stack.Validate.validate_identifier_prefix
    home_stack.Artifacts.add_plists home_stack.Artifacts.add_plist
    home_stack.Registry.generates_agent_plist home_stack.Registry.is_enabled
    home_stack.Launchd.generate_launchd_plist write_names same_names split join
    home_stack.Artifacts.build_catalog prepare_apply load_registry home_stack.Edits.check_loaded
    getenv lookup home_stack.Validate.validate home_stack.Validate.check_services
    home_stack.Validate.Checks.check_service home_stack.Validate.Tokens.validate_display_token
    home_stack.Validate.check_broker_enabled sort_by
generated = refl

agent_env-pins_example :
    lookup "HOME_STACK_SELF_NAME"
      (agent_env "notes" notes "home" "home.example.com" "/etc/home-stack")
    ≡ lookup "HOME_STACK_SELF_NAME" (pins "notes" notes "home" "home.example.com" "/etc/home-stack")
unfolding lookup has_prefix
agent_env-pins_example =
    agent_env-pins house "home" "home.example.com" "/etc/home-stack" "notes" "HOME_STACK_SELF_NAME"
      notes house-valid refl refl

desired_artifacts-perm_example :
    (b : GeneratedArtifacts) × (desired_artifacts getenv host.quote write_names docs_first "home"
        dir "/Users/owner" "com.example" "home.example.com" "me@example.com" "100.64.0.1"
      ≡ ok b)
    × SameArtifacts getenv host.quote write_names "home" dir "/Users/owner" "com.example"
        "home.example.com" b artifacts
unfolding lookup
desired_artifacts-perm_example =
    desired_artifacts-perm getenv host.quote write_names "home" dir "/Users/owner" "com.example"
      "home.example.com" profile docs_first "me@example.com" "100.64.0.1" artifacts writes_sorted
      (Permᴰ.swap refl refl) (refl, (refl, tt)) generated
