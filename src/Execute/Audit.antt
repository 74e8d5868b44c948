-- ===== src/Execute/Audit.antt =====
-- actions.go, `executeAction`: the audit log after an action.
use home_stack.Prelude.{
  true, ◌≡◌, refl, List, Option, none, String, ok, Option-cases, Outcome-cases, inl, inr,
}
use home_stack.Actions.{ActionRequest, RunError}
use home_stack.Artifacts.{Storage}
use home_stack.Deploy.{Host, DeployDiff}
use home_stack.Events.{AdminEvent, Journal, append_event}
use home_stack.Execute.{State, ActionResult, perform, result_of, event_of, audit, execute_action}

module _ {W : Type 0} (run : List String → W → (String × Option RunError) × W) (bundle_dir : String)
    (h : Host) (disk : Storage) (j : Journal) (to_json : DeployDiff → String) where
  audited_ok :
      (actor : String) (req : ActionRequest) (result : ActionResult) (st : State W)
      → (audit run bundle_dir h disk j to_json actor req result st).0.ok ≡ true
      → (result.ok ≡ true)
        × (append_event j (event_of run bundle_dir h disk j to_json actor req result) st.log
            ≡ (ok tt, (audit run bundle_dir h disk j to_json actor req result st).1.log))
  unfolding audit
  audited_ok actor req result st fine =
      let answer =
        append_event j (event_of run bundle_dir h disk j to_json actor req result) st.log in
      elim (Outcome-cases answer.0) [
        | inr (e, failed) ↦ absurd (cc (rw (failed, audit) at fine))
        | inl (_, done) ↦ rw (done, audit) (rw (done, audit) at fine, refl)
      ]

  -- An action whose result is good has run without an error, and its event, which names the actor, the
  -- action and its target and says that it went well, is what was appended to the log.
  pub ok_audited :
      (actor now : String) (req : ActionRequest) (st : State W)
      → (execute_action run bundle_dir h disk j to_json actor now req st).0.ok ≡ true
      → ((perform run bundle_dir h disk j to_json req st).0.1 ≡ none)
        × ((evt : AdminEvent) × (append_event j evt
                (perform run bundle_dir h disk j to_json req st).1.log
              ≡ (ok tt, (execute_action run bundle_dir h disk j to_json actor now req st).1.log))
            × (evt.actor ≡ actor)
            × (evt.action ≡ req.action)
            × (evt.target ≡ req.target)
            × (evt.ok ≡ true))
  unfolding execute_action result_of event_of
  ok_audited actor now req st fine =
      let after = perform run bundle_dir h disk j to_json req st in
      let result = result_of run bundle_dir h disk j to_json req now after.0.0 after.0.1 in
      let (good, appended) = audited_ok actor req result after.1 fine in
      elim (Option-cases after.0.1) [
        | inr (f, failed) ↦ absurd (cc (rw (failed, result_of) at good))
        | inl clean ↦ (
          clean,
          (
            event_of run bundle_dir h disk j to_json actor req result,
            appended,
            refl,
            refl,
            refl,
            good,
          ),
        )
      ]

  -- The log after an action is the one that the action left, with its event appended where that went
  -- well.
  pub audited_log :
      (actor now : String) (req : ActionRequest) (st : State W)
      → (evt : AdminEvent) × ((execute_action run bundle_dir h disk j to_json actor now req
            st).1.log
          ≡ (append_event j evt (perform run bundle_dir h disk j to_json req st).1.log).1)
  unfolding execute_action audit
  audited_log actor now req st =
      let after = perform run bundle_dir h disk j to_json req st in
      let result = result_of run bundle_dir h disk j to_json req now after.0.0 after.0.1 in
      let evt = event_of run bundle_dir h disk j to_json actor req result in
      (
        evt,
        elim (Outcome-cases (append_event j evt after.1.log).0) [
          | inr (e, failed) ↦ rw (failed, audit) refl
          | inl (_, done) ↦ rw (done, audit) refl
        ],
      )
