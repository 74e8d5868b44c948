-- ===== src/Doctor.antt =====
-- portable/home-stack/admin/doctor.go, `doctorChecks`, and main.go, `handleDoctor` and
-- `localCaddyAdminURL`, with engine.go, `validateEnv`.
pub mod Verdict
use Prim.Native.Char.{Char, code}
use Prim.Native.String
use home_stack.Prelude.{
  Bool, true, false, ◌&&◌, ◌||◌, not, List, [], ◌∷◌, ◌++◌, Option, none, some, String, ◌==◌, eqb,
  equal_fold, if◌then◌else◌, Result, ok, err, any,
}
use home_stack.Launchd.{Environment}

pub record DoctorCheck : Type 0 where
  pub id : String
  pub label : String
  pub state : String
  pub details : String

-- What net/url parses, as far as it is used: the scheme, the host without its port, and its text.
pub record Url : Type 0 where
  pub scheme : String
  pub hostname : String
  pub text : String

pub data UrlError : Type 0 where
  not_parsed : UrlError
  not_http : UrlError
  not_local : String → UrlError

-- `strings.TrimRight` by "/".
abbrev trim_slashes : String → String
trim_slashes String.[] = ""
trim_slashes (String.◌∷◌ c s) =
    let rest = trim_slashes s in if eqb (code c) b'/' && rest == "" then "" else String.◌∷◌ c rest

-- `parse` is net/url's; `is_loopback` is whether net reads a text as an address that loops back.
module _ (parse : String → Option Url) (is_loopback : String → Bool) where
  unfoldable pub local_caddy_admin_url : String → Result UrlError String
  local_caddy_admin_url raw = elim (parse (trim_slashes raw)) [
    | none ↦ err not_parsed
    | some u ↦
        if not (u.scheme == "http")
        then err not_http
        else if equal_fold u.hostname "localhost"
            || u.hostname == "127.0.0.1"
            || u.hostname == "::1"
        then ok u.text
        else if is_loopback u.hostname
        then ok u.text
        else err (not_local u.hostname)
  ]

  abbrev pub is_loopback_name : Option Url → Bool
  is_loopback_name none = false
  is_loopback_name (some u) =
      u.hostname == "127.0.0.1" || u.hostname == "localhost" || u.hostname == "::1"

  abbrev check : String → String → String → String → DoctorCheck
  check id label state details = record { id = id; label = label; state = state; details = details }

  -- `doctorChecks`; `missing_binary` is the error of `os.Stat`, if there is one.
  unfoldable pub doctor_checks : String → String → Option String → List DoctorCheck
  doctor_checks admin_password caddy_admin_url missing_binary =
      (if admin_password == ""
        then check "admin-password" "Admin password configured" "fail"
            "HOME_STACK_ADMIN_PASSWORD is empty"
        else check "admin-password" "Admin password configured" "ok" "")
      ∷ check "caddy-admin-loopback" "Caddy Admin API loopback-only"
          (if is_loopback_name (parse caddy_admin_url) then "ok" else "fail") caddy_admin_url
      ∷ (elim missing_binary [
        | none ↦ check "caddy-binary" "Caddy Cloudflare binary exists" "ok" ""
        | some e ↦ check "caddy-binary" "Caddy Cloudflare binary exists" "warn" e
      ])
      ∷ []

  -- The flag of `handleDoctor`.
  abbrev none_fails : List DoctorCheck → Bool
  none_fails [] = true
  none_fails (c ∷ checks) =
      let later = none_fails checks in if c.state == "fail" then false else later

  unfoldable pub handle_doctor : String → String → Option String → Bool × List DoctorCheck
  handle_doctor admin_password caddy_admin_url missing_binary =
      let checks = doctor_checks admin_password caddy_admin_url missing_binary in
      (none_fails checks, checks)

abbrev required : List String
required =
    "HOME_STACK_PARENT_DOMAIN" ∷ "HOME_STACK_TAILNET_IP" ∷ "HOME_STACK_ACME_EMAIL"
    ∷ "HOME_STACK_OWNER_HOME" ∷ "HOME_STACK_IDENTIFIER_PREFIX" ∷ "HOME_STACK_ADMIN_USERNAME" ∷ []

abbrev unset_of : Environment → List String → List String
unset_of getenv [] = []
unset_of getenv (key ∷ ks) =
    let later = unset_of getenv ks in if getenv key == "" then key ∷ later else later

-- `validateEnv`; the error is the names that are missing.
unfoldable pub validate_env : Environment → Result (List String) (Unit {0})
validate_env getenv = elim (unset_of getenv required) [ [] ↦ ok tt | k ∷ ks ↦ err (k ∷ ks) ]
