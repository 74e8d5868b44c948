-- ===== src/Health/Network.antt =====
-- portable/home-stack/admin/main.go, `checkPort`, `checkHTTP`, `getCaddyConfig` and `handleStatus`'s
-- `checkCaddyAdmin`: the checks of a service, on what the network answers.
use home_stack.Prelude.{
  ℕ, Bool, true, false, ◌&&◌, ◌||◌, not, Option, none, some, String, ◌==◌, ◌<>◌, ltb, leb,
  if◌then◌else◌,
}
use home_stack.Http.{Server}
use home_stack.Health.{CheckStatus, Probes}
use home_stack.Health.Routes.{Json, check_route}

-- What comes of a GET: no request can be made of the address, the client fails, or there is an answer
-- with its code, its status line, as much of its body as comes, and whether the body breaks off after
-- that.
pub data Fetched : Type 0 where
  bad_address : String → Fetched
  no_answer : String → Fetched
  answered : ℕ → String → String → Bool → Fetched

pub data FetchError : Type 0 where
  in_request : String → FetchError
  in_client : String → FetchError
  refused : String → FetchError
  in_body : FetchError

-- The network as the program uses it: the error of a dial, if there is one; a GET, with the user and
-- the password that are sent along, if they are; fmt's decimal text of a code; and the first bytes of a
-- body, as many as io.LimitReader lets through, where there are that many.
pub record Network : Type 0 where
  pub dial : String → Option String
  pub fetch : String → Option (String × String) → Fetched
  pub decimal : ℕ → String
  pub limited : String → Option String

module _ (net : Network) where
  unfoldable pub check_port : String → CheckStatus
  check_port target = elim (net.dial target) [
    | some e ↦ record { passed = false; state = "closed"; target = target; details = e }
    | none ↦ record { passed = true; state = "open"; target = target; details = "" }
  ]

  -- The user and the password that `checkHTTP` sends.
  abbrev pub credentials : Server → Bool → Option (String × String)
  credentials s basic_auth =
      if basic_auth && not (s.admin_password == "")
      then some (s.admin_username, s.admin_password)
      else none

  unfoldable pub check_http : Server → String → Bool → CheckStatus
  check_http s target basic_auth = elim (net.fetch target (credentials s basic_auth)) [
    | bad_address e ↦ record { passed = false; state = "invalid"; target = target; details = e }
    | no_answer e ↦ record { passed = false; state = "error"; target = target; details = e }
    | answered code line body broken ↦ record {
      passed = leb 200 code && ltb code 400;
      state = net.decimal code;
      target = target;
      details = "";
    }
  ]

  -- io.ReadAll behind the io.LimitReader: what was read, also where reading ends in an error, which a
  -- body that is cut at the limit does not reach.
  abbrev pub body_of : String → Bool → String × Option FetchError
  body_of body broken = elim (net.limited body) [
    | some cut ↦ (cut, none)
    | none ↦ (body, if broken then some in_body else none)
  ]

  -- What was read, and the error, if there is one.
  unfoldable pub get_caddy_config : String → String × Option FetchError
  get_caddy_config caddy_admin_url = elim (net.fetch (caddy_admin_url <> "/config/") none) [
    | bad_address e ↦ ("", some (in_request e))
    | no_answer e ↦ ("", some (in_client e))
    | answered code line body broken ↦
        if ltb code 200 || leb 300 code then ("", some (refused line)) else body_of body broken
  ]

  -- What was read, if anything: the error is dropped.
  abbrev pub config_or_nothing : String × Option FetchError → String
  config_or_nothing (config, e) = config

  -- The three checks, as `collectServices` makes them, with encoding/json's parser and the test for a
  -- substring.
  unfoldable pub probes :
      (String → Option Json) → (String → String → Bool) → Server → String → Probes
  probes unmarshal contains s caddy_admin_url = record {
    check_port = check_port;
    check_route =
        check_route unmarshal contains (config_or_nothing (get_caddy_config caddy_admin_url));
    check_http = check_http s;
  }
