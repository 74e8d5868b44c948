-- ===== src/Launchd.antt =====
-- portable/home-stack/admin/engine.go, `GenerateLaunchdPlist` and `GenerateSystemDaemonPlist`: the
-- property lists of the agents and of the daemon, as text.
pub mod Xml
pub mod Pins
pub mod Reader
use home_stack.Prelude.{
  List, [], ◌∷◌, none, some, String, ◌==◌, ◌<>◌, Map, lookup, insert, keys, map, sort_strings,
  if◌then◌else◌, Result, ok, err,
}
use home_stack.Prelude.Paths
use home_stack.Prelude.Decimal.{decimal}
use home_stack.Registry.{Service, routable_host, routable_url, is_scheduled_task, start_interval}
use home_stack.Caddyfile.{expand_path}
use home_stack.Launchd.Xml.{xml_text}

-- No profile was resolved for this service.
pub data PlistError : Type 0 where
  no_profile : String → PlistError

abbrev pub label : String → String → String
label identifier_prefix name = identifier_prefix <> ".home-stack." <> name

abbrev expand_all : List String → String → List String
expand_all [] owner_home = []
expand_all (arg ∷ args) owner_home = expand_path arg owner_home ∷ expand_all args owner_home

unfoldable pub program_arguments : String → Service → String → String → List String
program_arguments name svc bundle_dir owner_home =
    if svc.binary == ""
    then (if name == "logrotate"
        then Paths.join (bundle_dir ∷ "scripts" ∷ "rotate-logs.sh" ∷ []) ∷ []
        else Paths.join (bundle_dir ∷ "scripts" ∷ ("run-" <> name <> ".sh") ∷ []) ∷ [])
    else expand_path svc.binary owner_home ∷ expand_all svc.args owner_home

-- The five entries of `agentEnv` that the engine sets.
unfoldable pub pins : String → Service → String → String → String → Map String
pins name svc profile parent_domain config_dir =
    ("HOME_STACK_PROFILE", profile)
    ∷ ("HOME_STACK_SELF_NAME", name)
    ∷ ("HOME_STACK_SELF_HOST", routable_host svc parent_domain)
    ∷ ("HOME_STACK_SELF_URL", routable_url svc parent_domain)
    ∷ ("HOME_STACK_DATA_DIR", Paths.join (config_dir ∷ "data" ∷ name ∷ []))
    ∷ []

-- The loop that copies the service's own environment over them.
unfoldable pub overlay : Map String → Map String → Map String
overlay [] env = env
overlay ((k, v) ∷ rest) env = overlay rest (insert k v env)

unfoldable pub agent_env : String → Service → String → String → String → Map String
agent_env name svc profile parent_domain config_dir =
    overlay svc.env (pins name svc profile parent_domain config_dir)

abbrev pub value_of : String → Map String → String
value_of k env = elim (lookup k env) [ none ↦ "" | some v ↦ v ]

abbrev argument_lines : List String → String
argument_lines [] = ""
argument_lines (arg ∷ args) = "\t\t<string>" <> xml_text arg <> "</string>\n" <> argument_lines args

abbrev pub entry_lines : String → String → String
entry_lines k v = "\t\t<key>" <> xml_text k <> "</key>\n\t\t<string>" <> xml_text v <> "</string>\n"

-- The loop over the sorted keys of `agentEnv`.
unfoldable pub env_lines : Map String → String → List String → String
env_lines env owner_home [] = ""
env_lines env owner_home (k ∷ ks) =
    entry_lines k (expand_path (value_of k env) owner_home) <> env_lines env owner_home ks

abbrev head_lines : String → String
head_lines label_text =
    "<?xml version=\"1.0\" encoding=\"UTF-8\"?>\n"
    <> "<!DOCTYPE plist PUBLIC \"-//Apple//DTD PLIST 1.0//EN\" \"http://www.apple.com/DTDs/PropertyList-1.0.dtd\">\n"
    <> "<plist version=\"1.0\">\n<dict>\n\t<key>Label</key>\n\t<string>"
    <> xml_text label_text
    <> "</string>\n\t<key>ProgramArguments</key>\n\t<array>\n"

abbrev log_lines : String → String → String
log_lines log_dir name =
    "\t<key>StandardOutPath</key>\n\t<string>"
    <> xml_text log_dir
    <> "/"
    <> xml_text name
    <> ".launchd.out.log</string>\n\t<key>StandardErrorPath</key>\n\t<string>"
    <> xml_text log_dir
    <> "/"
    <> xml_text name
    <> ".launchd.err.log</string>\n</dict>\n</plist>"

abbrev working_dir_lines : String → String → String
working_dir_lines working_dir owner_home =
    if working_dir == ""
    then ""
    else "\t<key>WorkingDirectory</key>\n\t<string>"
      <> xml_text (expand_path working_dir owner_home)
      <> "</string>\n"

abbrev schedule_lines : Service → String
schedule_lines svc =
    if is_scheduled_task svc
    then "\t<key>StartInterval</key>\n\t<integer>" <> decimal (start_interval svc) <> "</integer>\n"
    else "\t<key>KeepAlive</key>\n\t<true/>\n"

unfoldable pub generate_launchd_plist :
    String
    → Service
    → String
    → String
    → String
    → String
    → String
    → String
    → Result PlistError String
generate_launchd_plist name svc profile bundle_dir owner_home identifier_prefix parent_domain
      config_dir =
    let env = agent_env name svc profile parent_domain config_dir in
    if profile == ""
    then err (no_profile name)
    else ok (
        head_lines (label identifier_prefix name)
        <> argument_lines (program_arguments name svc bundle_dir owner_home)
        <> "\t</array>\n"
        <> working_dir_lines svc.working_dir owner_home
        <> "\t<key>EnvironmentVariables</key>\n\t<dict>\n"
        <> env_lines env owner_home (sort_strings (keys env))
        <> "\t</dict>\n"
        <> "\t<key>RunAtLoad</key>\n\t<true/>\n"
        <> schedule_lines svc
        <> log_lines (Paths.join (owner_home ∷ ".config/home-stack/logs" ∷ [])) name)

-- `os.Getenv` of a name, "" where it is not set, and `envOr`.
abbrev pub Environment : Type 0
Environment = String → String

unfoldable pub env_or : Environment → String → String → String
env_or getenv key fallback = if getenv key == "" then fallback else getenv key

abbrev pair_lines : Map String → String
pair_lines [] = ""
pair_lines ((k, v) ∷ rest) = entry_lines k v <> pair_lines rest

-- The four directories of the daemon.
abbrev pub config_dir_of : Environment → String → String
config_dir_of getenv owner_home =
    env_or getenv "HOME_STACK_CONFIG_DIR" (Paths.join (owner_home ∷ ".config/home-stack" ∷ []))

abbrev daemon_dir : Environment → String → String → String → String
daemon_dir getenv key config_dir below = env_or getenv key (Paths.join (config_dir ∷ below ∷ []))

unfoldable pub daemon_env : Environment → String → String → String → Map String
daemon_env getenv profile bundle_dir owner_home =
    let config_dir = config_dir_of getenv owner_home in
    ("HOME_STACK_PROFILE", profile)
    ∷ ("HOME_STACK_OWNER_HOME", owner_home)
    ∷ ("HOME_STACK_BUNDLE_DIR", bundle_dir)
    ∷ ("HOME_STACK_CONFIG_DIR", config_dir)
    ∷ ("HOME", owner_home)
    ∷ ("XDG_CONFIG_HOME", daemon_dir getenv "HOME_STACK_CADDY_CONFIG_DIR" config_dir "caddy/config")
    ∷ ("XDG_DATA_HOME", daemon_dir getenv "HOME_STACK_CADDY_DATA_DIR" config_dir "caddy/data")
    ∷ []

unfoldable pub generate_system_daemon_plist :
    Environment → String → String → String → String → String → Result PlistError String
generate_system_daemon_plist getenv name profile bundle_dir owner_home identifier_prefix =
    let program = Paths.join (bundle_dir ∷ "scripts" ∷ ("run-" <> name <> ".sh") ∷ []) in
    let config_dir = config_dir_of getenv owner_home in
    if profile == ""
    then err (no_profile name)
    else ok (
        head_lines (label identifier_prefix name)
        <> "\t\t<string>"
        <> xml_text program
        <> "</string>\n"
        <> "\t</array>\n"
        <> "\t<key>WorkingDirectory</key>\n\t<string>"
        <> xml_text bundle_dir
        <> "</string>\n"
        <> "\t<key>EnvironmentVariables</key>\n\t<dict>\n"
        <> pair_lines (daemon_env getenv profile bundle_dir owner_home)
        <> "\t</dict>\n"
        <> "\t<key>RunAtLoad</key>\n\t<true/>\n\t<key>KeepAlive</key>\n\t<true/>\n\t<key>ThrottleInterval</key>\n\t<integer>10</integer>\n"
        <> log_lines (daemon_dir getenv "HOME_STACK_LOG_DIR" config_dir "logs") name)
