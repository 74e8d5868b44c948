-- ===== src/Handlers/Actor.antt =====
-- main.go, `handleAction`: which requests execute an action, and in whose name.
use home_stack.Prelude.{
  ◌≡◌, ◌≢◌, ◌⊎◌, refl, List, Option, some, String, ◌==◌, eq_iff, Bool-cases, Option-cases,
  Outcome-cases, inl, inr,
}
use home_stack.Validity.Tokens.{==-eq-false}
use home_stack.Http.{Request, Server, proxy_identity}
use home_stack.Http.Guards.{IsIdentified, HasPassword, IsAuthenticated, proxy_identity_iff}
use home_stack.Actions.{ActionRequest, RunError, validate_action_request}
use home_stack.Actions.Requests.{IsPermitted, validate_action_request_iff}
use home_stack.Artifacts.{Storage}
use home_stack.Deploy.{Host, DeployDiff}
use home_stack.Events.{Journal}
use home_stack.Execute.{State, active_registry, execute_action}
use home_stack.Handlers.{actor_of, handle_request, handle_action}

module _ {W : Type 0} (run : List String → W → (String × Option RunError) × W) (bundle_dir : String)
    (h : Host) (disk : Storage) (j : Journal) (to_json : DeployDiff → String)
    (basic_auth : Request → Option (String × String))
    (decode : Request → Option ActionRequest) where
  -- The user that the ingress named, or the administrator with the password.
  abbrev pub IsActor : Server → Request → String → Type 0
  IsActor s r actor =
      (IsIdentified s r × (actor ≡ proxy_identity s r) × (actor ≢ ""))
      ⊎ (HasPassword basic_auth s r × (actor ≡ s.admin_username))

  actor_of-IsActor :
      (s : Server) (r : Request)
      → IsAuthenticated basic_auth s r
      → IsActor s r (actor_of run bundle_dir h disk j to_json basic_auth decode s r)
  unfolding actor_of
  actor_of-IsActor s r known =
      let named = proxy_identity_iff s r in
      elim (Bool-cases (proxy_identity s r == "")) [
        | inr e ↦
            let full = (==-eq-false (proxy_identity s r) "").0 e in
            inl (named.0 full, rw e refl, rw e full)
        | inl e ↦ elim known [
          | inl id ↦ absurd (named.1 id ((eq_iff (proxy_identity s r) "").0 e))
          | inr (set, given) ↦ inr ((set, given), rw (e, given) refl)
        ]
      ]

  -- A request that is logged in, and whose body is an action request that is permitted by the registry
  -- of that moment, has the effect of executing that action in the name of the user that the ingress
  -- named, or else of the administrator; any other request that is logged in changes nothing.
  pub attributed_action :
      (s : Server) (now : String) (r : Request) (st : State W)
      → IsAuthenticated basic_auth s r
      → (((req : ActionRequest)
            → decode r ≡ some req
            → ¬ IsPermitted (active_registry run bundle_dir h disk j to_json st) req)
          × ((handle_action run bundle_dir h disk j to_json basic_auth decode s now r st).1 ≡ st))
        ⊎ ((req : ActionRequest) × (actor : String) × (decode r ≡ some req)
            × IsPermitted (active_registry run bundle_dir h disk j to_json st) req
            × IsActor s r actor
            × ((handle_action run bundle_dir h disk j to_json basic_auth decode s now r st).1
                ≡ (execute_action run bundle_dir h disk j to_json actor now req st).1))
  unfolding handle_action handle_request
  attributed_action s now r st known = elim (Option-cases (decode r)) [
    | inl garbled ↦ inl ((λ req e. absurd (cc (garbled, e))), rw (garbled, handle_action) refl)
    | inr (req, decoded) ↦
        let reg = active_registry run bundle_dir h disk j to_json st in
        elim (Outcome-cases (validate_action_request reg req)) [
          | inr (e, refused) ↦ inl (
            (λ other same permitted.
                let here : req ≡ other = cc (decoded, same) in
                let passed = (validate_action_request_iff reg other).1 permitted in
                absurd (cc (passed, refused, here))),
            rw (decoded, handle_action, refused, handle_request) refl,
          )
          | inl (_, passed) ↦ inr (
            req,
            actor_of run bundle_dir h disk j to_json basic_auth decode s r,
            decoded,
            (validate_action_request_iff reg req).0 passed,
            actor_of-IsActor s r known,
            rw (decoded, handle_action, passed, handle_request) refl,
          )
        ]
  ]
