-- ===== src/Inspect.antt =====
-- portable/home-stack/admin/main.go, the inspection of launchd: `collectLaunchdServices`,
-- `populateLaunchdStatus`, `parseLaunchctlField`, and the arguments and the filter of `launchd-status`.
pub mod Found
pub mod Cache
use Prim.Native.Char.{Char, code}
use Prim.Native.String
use home_stack.Prelude.{
  Bool, true, false, ◌&&◌, ◌||◌, not, List, [], ◌∷◌, ◌++◌, Option, none, some, String, ◌==◌, ◌<>◌,
  has_prefix, has_suffix, trim_prefix, trim_suffix, trim_space, split, if◌then◌else◌, Result, ok,
  err, any,
}
use home_stack.Prelude.Paths
use home_stack.Launchd.{Environment}
use home_stack.Health.{LaunchdService}

unfoldable pub domain_for_scope : String → String → String
domain_for_scope scope uid = if scope == "system" then "system" else "gui/" <> uid

-- `len(value) >= 2` and a quote at either end.
abbrev is_quoted : String → Bool
is_quoted value = has_prefix value "\"" && has_suffix value "\"" && not (value == "\"")

abbrev unquoted : String → String
unquoted value = if is_quoted value then trim_suffix (trim_prefix value "\"") "\"" else value

abbrev field_of : List String → String → String
field_of [] prefix = ""
field_of (line ∷ lines) prefix =
    let later = field_of lines prefix in
    if has_prefix (trim_space line) prefix
    then unquoted (trim_space (trim_prefix (trim_space line) prefix))
    else later

unfoldable pub parse_launchctl_field : String → String → String
parse_launchctl_field output field = field_of (split output b'\n') (field <> " = ")

-- `populateLaunchdStatus`; `print` is what launchctl prints of a service in a domain, if it knows it.
unfoldable pub populate_launchd_status :
    (String → String → Option String) → LaunchdService → LaunchdService
populate_launchd_status print svc = elim (print svc.domain svc.label) [
  | none ↦ svc
  | some output ↦
      let program = parse_launchctl_field output "program" in
      record svc {
        state = parse_launchctl_field output "state";
        pid = parse_launchctl_field output "pid";
        last_exit_code = parse_launchctl_field output "last exit code";
        stdout = parse_launchctl_field output "stdout path";
        stderr = parse_launchctl_field output "stderr path";
        program = if program == "" then svc.program else program;
      }
]

-- The machine: the running user, which names a pattern finds in a directory, what PlistBuddy says is a
-- plist's program, and launchctl.
pub record Machine : Type 0 where
  pub getenv : Environment
  pub uid : String
  pub glob : String → String → List String
  pub program_from_plist : String → String
  pub print : String → String → Option String

unfoldable pub service_name : String → String → String
service_name identifier_prefix file =
    trim_suffix (trim_prefix file (identifier_prefix <> ".home-stack.")) ".plist"

-- The record of one plist, before launchctl is asked, and after.
unfoldable pub discovered : Machine → String → String → String → String → String → LaunchdService
discovered m uid identifier_prefix dir scope file =
    let name = service_name identifier_prefix file in
    let path = Paths.join (dir ∷ file ∷ []) in
    record {
      name = name;
      scope = scope;
      domain = domain_for_scope scope uid;
      label = identifier_prefix <> ".home-stack." <> name;
      state = "not loaded";
      pid = "";
      last_exit_code = "";
      program = m.program_from_plist path;
      path = path;
      stdout = "";
      stderr = "";
    }

-- The loop over the files of one directory.
unfoldable pub collect_from :
    Machine → String → String → String → String → String → List String → List LaunchdService
collect_from m uid identifier_prefix dir scope filter [] = []
collect_from m uid identifier_prefix dir scope filter (file ∷ files) =
    let later = collect_from m uid identifier_prefix dir scope filter files in
    if not (filter == "") && not (service_name identifier_prefix file == filter)
    then later
    else populate_launchd_status m.print (discovered m uid identifier_prefix dir scope file) ∷ later

-- `collectLaunchdServices`; the error is the name that is not set.
unfoldable pub collect_launchd_services : Machine → String → Result String (List LaunchdService)
collect_launchd_services m filter =
    let uid =
      if m.getenv "HOME_STACK_OWNER_UID" == "" then m.uid else m.getenv "HOME_STACK_OWNER_UID" in
    let id = m.getenv "HOME_STACK_IDENTIFIER_PREFIX" in
    let home =
      if m.getenv "HOME_STACK_OWNER_HOME" == ""
      then m.getenv "HOME"
      else m.getenv "HOME_STACK_OWNER_HOME" in
    let agents = Paths.join (home ∷ "Library/LaunchAgents" ∷ []) in
    let pattern = id <> ".home-stack.*.plist" in
    if id == ""
    then err "HOME_STACK_IDENTIFIER_PREFIX"
    else ok (
        collect_from m uid id agents "user" filter (m.glob agents pattern)
        ++ collect_from m uid id "/Library/LaunchDaemons" "system" filter
            (m.glob "/Library/LaunchDaemons" pattern))

-- The lines that `launchd-status --verbose` prints.
abbrev relevant : List String
relevant =
    "state =" ∷ "pid =" ∷ "last exit code =" ∷ "program =" ∷ "path =" ∷ "stdout path ="
    ∷ "stderr path =" ∷ []

abbrev filtered_lines : List String → List String
filtered_lines [] = []
filtered_lines (line ∷ lines) =
    let later = filtered_lines lines in
    if any (λ prefix. has_prefix (trim_space line) prefix) relevant
    then trim_space line ∷ later
    else later

unfoldable pub print_filtered_output : String → List String
print_filtered_output output = filtered_lines (split output b'\n')

-- The loop over the arguments of `launchd-status`: the mode and the filter, `none` for the usage.
unfoldable pub launchd_status_args :
    List String → String → String → Result String (Option (String × String))
launchd_status_args [] mode filter = ok (some (mode, filter))
launchd_status_args (arg ∷ args) mode filter =
    let chosen =
      if arg == "--json" then "json" else if arg == "--table" then "table" else "verbose" in
    elim (arg == "--json" || arg == "--table" || arg == "--verbose") [
      | true ↦ launchd_status_args args chosen filter
      | false ↦ if arg == "--help" || arg == "-h" then ok none else elim (has_prefix arg "-") [
        | true ↦ err arg
        | false ↦ launchd_status_args args mode arg
      ]
    ]
