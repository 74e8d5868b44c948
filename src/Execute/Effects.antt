-- ===== src/Execute/Effects.antt =====
-- actions.go, `executeAction`: what some actions change, and what they leave.
use home_stack.Prelude.{
  false, ◌≡◌, refl, sym, ap, ◌∙◌, List, [], ◌∷◌, Option, some, String, eq_iff, ok, Outcome-cases,
  inl, inr, arith, lookup, ◌⊎◌,
}
use home_stack.Registry.{Registry}
use home_stack.Actions.{
  ActionRequest, RunError, validate_action_request, target_allowed, action_by_id, is_service_action,
  ActionDescriptor, registry_add, registry_remove,
}
use home_stack.Actions.Requests.{validate_action_request_iff}
use home_stack.Edits.{Disk, add_service, remove_service}
use home_stack.Artifacts.{Storage}
use home_stack.Deploy.{Host, DeployDiff}
use home_stack.Events.{Journal, append_event}
use home_stack.Execute.{
  State, system, ActionResult, perform, audit, execute_action, registry_add_action,
  registry_remove_action, event_of, result_of,
}

-- The two actions on the registry allow one target.
system_target :
    (reg : Option Registry) (req : ActionRequest) (desc : ActionDescriptor)
    → action_by_id req.action ≡ some desc
    → desc.allowed_targets ≡ "system" ∷ []
    → is_service_action desc.id ≡ false
    → validate_action_request reg req ≡ ok tt
    → req.target ≡ "system"
unfolding target_allowed
system_target reg req desc known only other permitted =
    let (found, known', allowed, _) = (validate_action_request_iff reg req).0 permitted in
    let same : found ≡ desc = cc in
    let listed = rw (same, other, only) at allowed in
    sym ((eq_iff "system" req.target).0 (ground arith))

registry_target :
    (reg : Option Registry) (req : ActionRequest)
    → validate_action_request reg req ≡ ok tt
    → (req.action ≡ "registry.add") ⊎ (req.action ≡ "registry.remove")
    → req.target ≡ "system"
unfolding action_by_id lookup
registry_target reg req permitted named = elim named [
  | inl add ↦ system_target reg req registry_add (ap action_by_id add) refl refl permitted
  | inr remove ↦ system_target reg req registry_remove (ap action_by_id remove) refl refl permitted
]

module _ {W : Type 0} (run : List String → W → (String × Option RunError) × W) (bundle_dir : String)
    (h : Host) (disk : Storage) (j : Journal) (to_json : DeployDiff → String) where
  -- The audit changes the log only.
  pub audit_log :
      (actor : String) (req : ActionRequest) (result : ActionResult) (st : State W)
      → (audit run bundle_dir h disk j to_json actor req result st).1
        ≡ record st { log = (audit run bundle_dir h disk j to_json actor req result st).1.log }
  unfolding audit
  audit_log actor req result st =
      let answer =
        append_event j (event_of run bundle_dir h disk j to_json actor req result) st.log in
      elim (Outcome-cases answer.0) [
        | inr (e, failed) ↦ rw (failed, audit) refl
        | inl (_, done) ↦ rw (done, audit) refl
      ]

  add_profile :
      (req : ActionRequest) (st : State W)
      → (registry_add_action run bundle_dir h disk j to_json req st).1.profile
        ≡ (add_service (system run bundle_dir h disk j to_json) req.target req.service st.profile).1
  unfolding registry_add_action
  add_profile req st =
      elim (Outcome-cases
        (add_service (system run bundle_dir h disk j to_json) req.target req.service
          st.profile).0) [
            | inl (_, done) ↦ rw (done, registry_add_action) refl
            | inr (e, failed) ↦ rw (failed, registry_add_action) refl
          ]

  remove_profile :
      (req : ActionRequest) (st : State W)
      → (registry_remove_action run bundle_dir h disk j to_json req st).1.profile
        ≡ (remove_service (system run bundle_dir h disk j to_json) req.target st.profile).1
  unfolding registry_remove_action
  remove_profile req st =
      elim (Outcome-cases
        (remove_service (system run bundle_dir h disk j to_json) req.target st.profile).0) [
          | inl (_, done) ↦ rw (done, registry_remove_action) refl
          | inr (e, failed) ↦ rw (failed, registry_remove_action) refl
        ]

  -- What the action did to a part of the state that the audit leaves alone.
  pub kept_profile :
      (actor now : String) (req : ActionRequest) (st : State W)
      → (execute_action run bundle_dir h disk j to_json actor now req st).1.profile
        ≡ (perform run bundle_dir h disk j to_json req st).1.profile
  unfolding execute_action
  kept_profile actor now req st =
      let after = perform run bundle_dir h disk j to_json req st in
      let profile_of : State W → Disk = λ s. s.profile in
      ap profile_of (
        audit_log actor req (result_of run bundle_dir h disk j to_json req now after.0.0 after.0.1)
          after.1)

  -- A request that passes the check and names the action "registry.add" or "registry.remove" has the
  -- target "system", and the profile's files are left as adding, or removing, a service called "system"
  -- leaves them.
  pub registry_actions_target :
      (actor now : String) (reg : Option Registry) (req : ActionRequest) (st : State W)
      → validate_action_request reg req ≡ ok tt
      → (req.action ≡ "registry.add"
          → (req.target ≡ "system")
            × ((execute_action run bundle_dir h disk j to_json actor now req st).1.profile
                ≡ (add_service
                    (system run bundle_dir h disk j to_json)
                    "system"
                    req.service
                    st.profile).1))
        × (req.action ≡ "registry.remove"
            → (req.target ≡ "system")
              × ((execute_action run bundle_dir h disk j to_json actor now req st).1.profile
                  ≡ (remove_service
                      (system run bundle_dir h disk j to_json)
                      "system"
                      st.profile).1))
  unfolding perform registry_add_action registry_remove_action
  registry_actions_target actor now reg req st permitted = (
    λ named.
        let same = registry_target reg req permitted (inl named) in
        (same, kept_profile actor now req st ∙ rw (named, ← same) (add_profile req st)),
    λ named.
        let same = registry_target reg req permitted (inr named) in
        (same, kept_profile actor now req st ∙ rw (named, ← same) (remove_profile req st)),
  )
