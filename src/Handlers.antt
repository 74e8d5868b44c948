-- ===== src/Handlers.antt =====
-- portable/home-stack/admin/main.go, `handleAction`, `handleEvents` and `handleDeployPreview`, with
-- deploy.go, `buildDeployPreview`.
pub mod Actor
pub mod History
use home_stack.Prelude.{
  ℕ, Bool, true, false, not, List, [], ◌∷◌, Option, none, some, String, ◌==◌, if◌then◌else◌, Result,
  ok, err,
}
use home_stack.Registry.{Registry}
use home_stack.Validate.{ValidationError, validate}
use home_stack.Http.{Request, Server, proxy_identity}
use home_stack.Actions.{ActionRequest, RunError, ActionError, validate_action_request}
use home_stack.Edits.{load_registry}
use home_stack.Artifacts.{Storage}
use home_stack.Deploy.{Host, DeployDiff, sync_profile, diff}
use home_stack.Events.{AdminEvent, Journal, read_events}
use home_stack.Execute.{State, ActionResult, active_registry, host_at, execute_action, system}

pub data PreviewProblem : Type 0 where
  no_parent_domain : PreviewProblem
  not_valid : ValidationError → PreviewProblem

-- `deployPreviewResponse`. The details are the error, or `none` for "registry validates".
pub record DeployPreview : Type 0 where
  pub ok : Bool
  pub valid : Bool
  pub changed_files : List String
  pub planned_actions : List String
  pub details : Option PreviewProblem

-- What a handler writes: the status, and the body by its kind.
pub data Response : Type 0 where
  failure : ℕ → String → Response
  rejected : ℕ → ActionError → Response
  executed : ℕ → ActionResult → Response
  events_page : ℕ → List AdminEvent → Response
  difference : ℕ → DeployDiff → Response
  preview : ℕ → DeployPreview → Response

abbrev validated : Registry → String → DeployPreview
validated r parent_domain =
    let page : DeployPreview = record {
      ok = true;
      valid = true;
      changed_files =
          "portable/home-stack/Caddyfile" ∷ "portable/home-stack/catalog.json"
          ∷ "portable/home-stack/launchd/*.plist" ∷ [];
      planned_actions = "validate caddyfile" ∷ "write generated files" ∷ [];
      details = none;
    } in
    elim (validate r parent_domain) [
      | ok _ ↦ page
      | err e ↦ record page { ok = false; valid = false; details = some (not_valid e) }
    ]

-- `getenv` is os.Getenv.
unfoldable pub build_deploy_preview : (String → String) → Registry → DeployPreview
build_deploy_preview getenv r =
    if getenv "HOME_STACK_PARENT_DOMAIN" == ""
    then record {
      ok = false;
      valid = false;
      changed_files = [];
      planned_actions = [];
      details = some no_parent_domain;
    }
    else validated r (getenv "HOME_STACK_PARENT_DOMAIN")

-- `decode` is encoding/json's decoder on the request's body, `basic_auth` net/http's `BasicAuth`.
module _ {W : Type 0} (run : List String → W → (String × Option RunError) × W) (bundle_dir : String)
    (h : Host) (disk : Storage) (j : Journal) (to_json : DeployDiff → String)
    (basic_auth : Request → Option (String × String))
    (decode : Request → Option ActionRequest) where
  abbrev user_of : Option (String × String) → String
  user_of none = ""
  user_of (some (username, password)) = username

  unfoldable pub actor_of : Server → Request → String
  actor_of s r = if proxy_identity s r == "" then user_of (basic_auth r) else proxy_identity s r

  abbrev pub reply : ActionResult × State W → Response × State W
  reply (result, st) = (executed (if result.ok then 200 else 400) result, st)

  -- `handleAction`, once the body is decoded.
  unfoldable pub handle_request :
      Server → String → Request → ActionRequest → State W → Response × State W
  handle_request s now r req st =
      elim (validate_action_request (active_registry run bundle_dir h disk j to_json st) req) [
        | err e ↦ (rejected 400 e, st)
        | ok _ ↦ reply (execute_action run bundle_dir h disk j to_json (actor_of s r) now req st)
      ]

  unfoldable pub handle_action : Server → String → Request → State W → Response × State W
  handle_action s now r st = elim (decode r) [
    | none ↦ (failure 400 "invalid action request", st)
    | some req ↦ handle_request s now r req st
  ]

  unfoldable pub handle_events : State W → Response
  handle_events st = elim (read_events j 50 st.log) [
    | err e ↦ failure 500 "failed to read events"
    | ok events ↦ events_page 200 events
  ]

  unfoldable pub handle_deploy_preview : State W → Response
  handle_deploy_preview st =
      elim (diff (host_at run bundle_dir h disk j to_json st) bundle_dir (sync_profile h bundle_dir)
        st.bundle) [
          | ok d ↦ difference 200 d
          | err e ↦
              elim (load_registry (system run bundle_dir h disk j to_json) st.profile.registry) [
                | err l ↦ failure 500 "failed to load registry"
                | ok r ↦ preview 200 (build_deploy_preview h.getenv r)
              ]
        ]
