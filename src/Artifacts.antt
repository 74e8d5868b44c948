-- ===== src/Artifacts.antt =====
-- portable/home-stack/admin/engine.go, `buildCatalog`, `desiredArtifacts` and `writeArtifacts`: what
-- the registry compiles down to, and how it reaches the bundle.
pub mod Written
pub mod Again
pub mod Put
pub mod Reordered
pub mod Plists
use home_stack.Prelude.{
  Bool, true, false, not, List, [], ◌∷◌, ◌++◌, Option, none, some, String, ◌==◌, ◌<>◌, Map, lookup,
  insert, map, if◌then◌else◌, Result, ok, err, ◌>>=◌, ◌>>◌, refuse_if, raise,
}
use home_stack.Registry.{Service, Registry, is_enabled, generates_agent_plist, routable_url}
use home_stack.Validate.{
  TokenError, ServiceError, validate_caddy_token, validate_host, validate_identifier_prefix,
}
use home_stack.Caddyfile.{generate_caddyfile}
use home_stack.Plists.{Attempt, Folder, Node, file, folder, write_and_prune}
use home_stack.Launchd.{
  PlistError, Environment, config_dir_of, generate_launchd_plist, generate_system_daemon_plist,
}
use home_stack.Edits.{File, holds}

-- `generatedArtifacts`.
pub record GeneratedArtifacts : Type 0 where
  pub caddyfile : String
  pub agent_plists : Map String
  pub daemon_plists : Map String
  pub catalog : String

pub data ArtifactsError : Type 0 where
  bad_token : TokenError → ArtifactsError
  bad_domain : ServiceError → ArtifactsError
  no_prefix : ArtifactsError
  bad_prefix : ArtifactsError
  no_plist : PlistError → ArtifactsError
  not_marshalled : ArtifactsError

abbrev pub catalog_entry : String → String × Service → String × Service
catalog_entry parent_domain (name, svc) =
    (name, record svc { args = []; env = []; url = routable_url svc parent_domain })

unfoldable pub build_catalog : Registry → String → Map Service
build_catalog r parent_domain = map (catalog_entry parent_domain) r.services

-- The three checks of texts, and the two of the identifier prefix.
unfoldable pub check_inputs : String → String → String → String → Result ArtifactsError (Unit {0})
check_inputs id_prefix parent_domain email tailnet_ip = do
  raise bad_token (validate_caddy_token "email" email false)
  raise bad_token (validate_caddy_token "tailnet IP" tailnet_ip false)
  raise bad_domain (validate_host parent_domain)
  refuse_if (id_prefix == "") no_prefix
  refuse_if (not (validate_identifier_prefix id_prefix)) bad_prefix

-- `getenv` reads the process's environment; `quote` is fmt's `%q`, `marshal` encoding/json's
-- `MarshalIndent`.
module _ (getenv : Environment) (quote : String → String)
    (marshal : Map Service → Option String) where
  -- One round of the loop over the services.
  unfoldable pub add_plist :
      String
      → String
      → String
      → String
      → String
      → String
      → Service
      → GeneratedArtifacts
      → Result ArtifactsError GeneratedArtifacts
  add_plist profile bundle_dir owner_home id_prefix parent_domain name svc a =
      if svc.type == "system"
      then (if not (is_enabled svc)
          then ok a
          else elim (generate_system_daemon_plist getenv name profile bundle_dir owner_home
              id_prefix) [
                | err e ↦ err (no_plist e)
                | ok plist ↦ ok (record a { daemon_plists = insert name plist a.daemon_plists })
              ])
      else if not (generates_agent_plist svc)
      then ok a
      else elim (generate_launchd_plist name svc profile bundle_dir owner_home id_prefix
          parent_domain (config_dir_of getenv owner_home)) [
            | err e ↦ err (no_plist e)
            | ok plist ↦ ok (record a { agent_plists = insert name plist a.agent_plists })
          ]

  unfoldable pub add_plists :
      String
      → String
      → String
      → String
      → String
      → Map Service
      → GeneratedArtifacts
      → Result ArtifactsError GeneratedArtifacts
  add_plists profile bundle_dir owner_home id_prefix parent_domain [] a = ok a
  add_plists profile bundle_dir owner_home id_prefix parent_domain ((name, svc) ∷ rest) a =
      elim (add_plist profile bundle_dir owner_home id_prefix parent_domain name svc a) [
        | err e ↦ err e
        | ok a' ↦ add_plists profile bundle_dir owner_home id_prefix parent_domain rest a'
      ]

  abbrev with_catalog :
      Option String → GeneratedArtifacts → Result ArtifactsError GeneratedArtifacts
  with_catalog none a = err not_marshalled
  with_catalog (some text) a = ok (record a { catalog = text })

  unfoldable pub desired_artifacts :
      Registry
      → String
      → String
      → String
      → String
      → String
      → String
      → String
      → Result ArtifactsError GeneratedArtifacts
  desired_artifacts r profile bundle_dir owner_home id_prefix parent_domain email tailnet_ip =
      let start : GeneratedArtifacts = record {
        caddyfile = generate_caddyfile quote r email tailnet_ip owner_home parent_domain;
        agent_plists = [];
        daemon_plists = [];
        catalog = "";
      } in
      elim (check_inputs id_prefix parent_domain email tailnet_ip) [
        | err e ↦ err e
        | ok _ ↦
            elim (add_plists profile bundle_dir owner_home id_prefix parent_domain r.services
              start) [
                | err e ↦ err e
                | ok a ↦ with_catalog (marshal (build_catalog r parent_domain)) a
              ]
      ]

-- What of the bundle the generated artifacts replace: two files, and the directories `launchd` and
-- `launchd/daemons`, empty where they do not exist yet.
pub record Bundle : Type 0 where
  pub caddyfile : File
  pub agents : Folder
  pub daemons : Folder
  pub catalog : File

-- How the disk behaves: which writes and removals succeed, and what a failed write of a file leaves.
pub record Storage : Type 0 where
  pub writes_caddyfile : Bool
  pub partial_caddyfile : File
  pub makes_launchd : Bool
  pub makes_daemons : Bool
  pub writes_agent : String → Attempt
  pub removes_agent : String → Bool
  pub writes_daemon : String → Attempt
  pub removes_daemon : String → Bool
  pub writes_catalog : Bool
  pub partial_catalog : File

-- `os.MkdirAll` of the directory of the daemons, an entry of that of the agents.
unfoldable pub make_daemons : Bool → Folder → Option Folder
make_daemons makes agents = elim (lookup "daemons" agents) [
  | none ↦ if makes then some (agents ++ (("daemons", folder) ∷ [])) else none
  | some node ↦ elim node [ folder ↦ some agents | file text ↦ none ]
]

module _ (disk : Storage) (id_prefix : String) (a : GeneratedArtifacts) where
  unfoldable pub write_catalog : Bundle → List String → Result String (List String) × Bundle
  write_catalog b logs =
      if disk.writes_catalog
      then (ok (logs ++ ("Generated catalog.json" ∷ [])), record b { catalog = holds a.catalog })
      else (err "failed to write catalog", record b { catalog = disk.partial_catalog })

  unfoldable pub write_daemons : Bundle → List String → Result String (List String) × Bundle
  write_daemons b logs =
      let (written, daemons) =
        write_and_prune disk.writes_daemon disk.removes_daemon "daemon plist" id_prefix
          a.daemon_plists b.daemons in
      elim written [
        | err e ↦ (err e, record b { daemons = daemons })
        | ok more ↦ write_catalog (record b { daemons = daemons }) (logs ++ more)
      ]

  unfoldable pub write_agents : Bundle → List String → Result String (List String) × Bundle
  write_agents b logs =
      let (written, agents) =
        write_and_prune disk.writes_agent disk.removes_agent "plist" id_prefix a.agent_plists
          b.agents in
      elim written [
        | err e ↦ (err e, record b { agents = agents })
        | ok more ↦ write_daemons (record b { agents = agents }) (logs ++ more)
      ]

  unfoldable pub make_dirs : Bundle → List String → Result String (List String) × Bundle
  make_dirs b logs =
      if disk.makes_launchd
      then elim (make_daemons disk.makes_daemons b.agents) [
        | none ↦ (err "failed to create launchd daemons dir", b)
        | some agents ↦ write_agents (record b { agents = agents }) logs
      ]
      else (err "failed to create launchd dir", b)

  unfoldable pub write_artifacts : Bundle → Result String (List String) × Bundle
  write_artifacts b =
      if disk.writes_caddyfile
      then make_dirs (record b { caddyfile = holds a.caddyfile }) ("Generated Caddyfile" ∷ [])
      else (err "failed to write Caddyfile", record b { caddyfile = disk.partial_caddyfile })
