-- ===== src/Deploy.antt =====
-- portable/home-stack/admin/registry.go, `Diff` and `Apply`, with engine.go, `syncSystem`: what a
-- deploy would change in the bundle, and the deploy itself.
pub mod Ready
pub mod Settled
pub mod Reordered
pub mod Agree
use home_stack.Prelude.{
  Bool, true, false, ◌||◌, not, List, [], ◌∷◌, ◌++◌, Option, String, ◌==◌, Map, join, if◌then◌else◌,
  Result, ok, err, ◌>>=◌, ◌>>◌, refuse_if, raise,
}
use home_stack.Prelude.Paths
use home_stack.Registry.{Service, Registry}
use home_stack.Validate.{validate_identifier_prefix}
use home_stack.Plists.{DiffSection, has_changes, merge_diff_sections, diff_plists}
use home_stack.Edits.{File, missing, unreadable, holds, System, LoadError, load_registry}
use home_stack.Launchd.{Environment, env_or}
use home_stack.FileDiff.{diff_files, diff_catalog}
use home_stack.Artifacts.{
  GeneratedArtifacts, ArtifactsError, Bundle, Storage, build_catalog, desired_artifacts,
  write_artifacts,
}

pub record DeployDiff : Type 0 where
  pub caddyfile : DiffSection
  pub launchd : DiffSection
  pub catalog : DiffSection
  pub changed : Bool

pub data DeployError : Type 0 where
  no_registry : DeployError
  not_loaded : LoadError → DeployError
  unset : String → DeployError
  prefix_refused : DeployError
  not_generated : ArtifactsError → DeployError
  not_written : String → DeployError
  not_reloaded : String → DeployError

unfoldable pub profiles_dir : Environment → String → String
profiles_dir getenv bundle_dir =
    env_or getenv "HOME_STACK_PROFILES_DIR" (Paths.join (bundle_dir ∷ "../../profiles" ∷ []))

unfoldable pub registry_path : Environment → String → String → String
registry_path getenv bundle_dir profile =
    Paths.join (profiles_dir getenv bundle_dir ∷ profile ∷ "services.yaml" ∷ [])

abbrev pub is_missing : File → Bool
is_missing missing = true
is_missing unreadable = false
is_missing (holds text) = false

-- `os.Getenv` of a name that must be set.
abbrev pub required_env : Environment → String → Result DeployError String
required_env getenv name = if getenv name == "" then err (unset name) else ok (getenv name)

-- What the code finds outside: the registry library, the files under the profiles directory, the
-- environment, and the libraries behind `%q` and JSON.
pub record Host : Type 0 where
  pub sys : System
  pub registries : String → File
  pub getenv : Environment
  pub quote : String → String
  pub marshal : Map Service → Option String
  pub unmarshal : String → Option (Map Service)

module _ (h : Host) (bundle_dir : String) where
  -- `loadRegistry`, which reads the parent domain from the environment.
  abbrev pub load_profile : String → Result DeployError Registry
  load_profile profile = raise not_loaded (
      load_registry (record h.sys { parent_domain = h.getenv "HOME_STACK_PARENT_DOMAIN" })
        (h.registries (registry_path h.getenv bundle_dir profile)))

  abbrev pub check_prefix : Result DeployError String
  check_prefix = do
    id_prefix ← required_env h.getenv "HOME_STACK_IDENTIFIER_PREFIX"
    refuse_if (not (validate_identifier_prefix id_prefix)) prefix_refused
    ok id_prefix

  abbrev pub generate :
      Registry → String → String → String → String → String → Result DeployError GeneratedArtifacts
  generate r profile owner_home id_prefix parent_domain email = raise not_generated (
      desired_artifacts h.getenv h.quote h.marshal r profile bundle_dir owner_home id_prefix
        parent_domain email (h.getenv "HOME_STACK_TAILNET_IP"))

  -- `Apply`, to the point where it writes.
  unfoldable pub prepare_apply : String → Result DeployError GeneratedArtifacts
  prepare_apply profile = do
    refuse_if (is_missing (h.registries (registry_path h.getenv bundle_dir profile))) no_registry
    r ← load_profile profile
    email ← required_env h.getenv "HOME_STACK_ACME_EMAIL"
    owner_home ← required_env h.getenv "HOME_STACK_OWNER_HOME"
    parent_domain ← required_env h.getenv "HOME_STACK_PARENT_DOMAIN"
    id_prefix ← check_prefix
    generate r profile owner_home id_prefix parent_domain email

  -- `syncSystem`, to the point where it writes.
  unfoldable pub prepare_sync : String → Result DeployError GeneratedArtifacts
  prepare_sync profile = do
    owner_home ← required_env h.getenv "HOME_STACK_OWNER_HOME"
    parent_domain ← required_env h.getenv "HOME_STACK_PARENT_DOMAIN"
    id_prefix ← check_prefix
    refuse_if (is_missing (h.registries (registry_path h.getenv bundle_dir profile))) no_registry
    r ← load_profile profile
    email ← required_env h.getenv "HOME_STACK_ACME_EMAIL"
    generate r profile owner_home id_prefix parent_domain email

  -- `Apply`, on the part of the bundle that it replaces.
  unfoldable pub apply : Storage → String → Bundle → Result DeployError String × Bundle
  apply disk profile b = elim (prepare_apply profile) [
    | err e ↦ (err e, b)
    | ok a ↦
        let (written, b') = write_artifacts disk (h.getenv "HOME_STACK_IDENTIFIER_PREFIX") a b in
        elim written [ err e ↦ (err (not_written e), b') | ok logs ↦ (ok (join logs "\n"), b') ]
  ]

  abbrev pub sync_profile : String
  sync_profile =
      if h.getenv "HOME_STACK_PROFILE" == "" then h.getenv "USER" else h.getenv "HOME_STACK_PROFILE"

  abbrev after_reload : Result String String → List String → Result DeployError String
  after_reload (err out) logs = err (not_reloaded out)
  after_reload (ok out) logs = ok (join (logs ++ ("Reloaded Caddy" ∷ [])) "\n")

  -- `syncSystem`. `reload` is what the script reload-caddy.sh answers.
  unfoldable pub sync_system :
      Storage → Result String String → Bundle → Result DeployError String × Bundle
  sync_system disk reload b = elim (prepare_sync sync_profile) [
    | err e ↦ (err e, b)
    | ok a ↦
        let (written, b') = write_artifacts disk (h.getenv "HOME_STACK_IDENTIFIER_PREFIX") a b in
        elim written [
          | err e ↦ (err (not_written e), b')
          | ok logs ↦ (after_reload reload logs, b')
        ]
  ]

  -- The three sections of `Diff`, and whether one of them has changes.
  unfoldable pub compare_bundle : String → Map Service → GeneratedArtifacts → Bundle → DeployDiff
  compare_bundle id_prefix catalog a b =
      let caddyfile = diff_files "Caddyfile" b.caddyfile a.caddyfile in
      let launchd = merge_diff_sections (
        diff_plists b.agents id_prefix a.agent_plists
        ∷ diff_plists b.daemons id_prefix a.daemon_plists
        ∷ []) in
      let catalog = diff_catalog h.unmarshal b.catalog catalog in
      record {
        caddyfile = caddyfile;
        launchd = launchd;
        catalog = catalog;
        changed = has_changes caddyfile || has_changes launchd || has_changes catalog;
      }

  abbrev pub diff_profile : String → String
  diff_profile profile = if profile == "" then h.getenv "USER" else profile

  -- `Diff`, the profile already defaulted, once the registry is loaded.
  unfoldable pub diff_loaded : String → Registry → Bundle → Result DeployError DeployDiff
  diff_loaded profile r b = do
    parent_domain ← required_env h.getenv "HOME_STACK_PARENT_DOMAIN"
    let id_prefix = h.getenv "HOME_STACK_IDENTIFIER_PREFIX"
    a ←
        generate r profile (h.getenv "HOME_STACK_OWNER_HOME") id_prefix parent_domain
          (h.getenv "HOME_STACK_ACME_EMAIL")
    ok (compare_bundle id_prefix (build_catalog r parent_domain) a b)

  unfoldable pub diff : String → Bundle → Result DeployError DeployDiff
  diff profile b = do
    r ← load_profile (diff_profile profile)
    diff_loaded (diff_profile profile) r b
