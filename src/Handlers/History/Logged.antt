-- ===== src/Handlers/History/Logged.antt =====
-- main.go, `handleAction`: an answer that reports success, and the audit log from then on.
use home_stack.Prelude.{
  ℕ, arith, true, [], Bool-cases, ◌≡◌, inl, inr, ap, List, ◌∷◌, ◌++◌, ◌<>◌, ◌∙◌, some, String,
  Option-cases, Outcome-cases,
}
use home_stack.Http.{Request, Server}
use home_stack.Actions.{ActionRequest, validate_action_request}
use home_stack.Edits.{System}
use home_stack.Events.{EventLog, AdminEvent, Journal, redacted}
use home_stack.Execute.Growth.{perform-IsGentle}
use home_stack.Events.Growth.{unfinished, recorded, IsExtended, IsExtended-line, append_event-last}
use home_stack.Execute.{State, ActionResult, active_registry, perform, execute_action}
use home_stack.Execute.Audit.{ok_audited}
use home_stack.Handlers.{reply, actor_of, handle_request, handle_action}
use home_stack.Handlers.History.{Setting, Reach}
use home_stack.Handlers.{Response, executed}
use home_stack.Handlers.History.Kept.{Reach-IsKept}

-- The text of a good event of the request stands in the log: it ends a line that begins with `start`.
abbrev pub IsLogged : Journal → String → ActionRequest → String → EventLog → Type 0
IsLogged j actor req start log =
    (evt : AdminEvent) × (text : String) × (before : List String) × (after : List String)
    × (j.marshal (redacted j evt) ≡ some text)
    × (evt.actor ≡ actor)
    × (evt.action ≡ req.action)
    × (evt.target ≡ req.target)
    × (evt.ok ≡ true)
    × (recorded log ≡ before ++ ((start <> text) ∷ after))

IsLogged-stays :
    (j : Journal) (actor : String) (req : ActionRequest) (start : String) (log later : EventLog)
    → IsExtended log later
    → IsLogged j actor req start log
    → IsLogged j actor req start later
IsLogged-stays j actor req start log later grown
      (evt, text, before, after, written, a, b, c, d, there) =
    let (rest, still) = IsExtended-line log later before after (start <> text) grown there in
    (evt, text, before, rest, written, a, b, c, d, still)

abbrev status : Response → ℕ
status (executed code result) = code
status other = 0

module _ {W : Type 0} (x : Setting W) where
  executed-IsLogged :
      (actor now : String) (req : ActionRequest) (st : State W)
      → (execute_action x.run x.bundle_dir x.host x.disk x.journal x.to_json actor now req st).0.ok
        ≡ true
      → IsLogged x.journal actor req
          (unfinished st.log)
          (execute_action x.run x.bundle_dir x.host x.disk x.journal x.to_json actor now req
            st).1.log
  executed-IsLogged actor now req st fine =
      let (_, (evt, appended, a, b, c, d)) =
        ok_audited x.run x.bundle_dir x.host x.disk x.journal x.to_json actor now req st fine in
      let mid = (perform x.run x.bundle_dir x.host x.disk x.journal x.to_json req st).1.log in
      let (text, written, last) = append_event-last x.journal evt mid _ appended in
      let gentle = perform-IsGentle x.run x.bundle_dir x.host x.disk x.journal x.to_json req st in
      let there = ap recorded last in
      (
        evt,
        text,
        recorded mid,
        [],
        written,
        a,
        b,
        c,
        d,
        there ∙ ap (λ log. recorded mid ++ ((unfinished log <> text) ∷ [])) gentle.0,
      )

  replied_ok :
      (o : ActionResult × State W) (result : ActionResult)
      → (reply x.run x.bundle_dir x.host x.disk x.journal x.to_json x.basic_auth x.decode o).0
        ≡ executed 200 result
      → o.0.ok ≡ true
  replied_ok (answer, st) result good = elim (Bool-cases answer.ok) [
    | inl fine ↦ fine
    | inr refused ↦ absurd (omega (arith, ap status (simp refused at good)))
  ]

  handled-IsLogged :
      (s : Server) (now : String) (r : Request) (st : State W) (result : ActionResult)
      → (handle_action x.run x.bundle_dir x.host x.disk x.journal x.to_json x.basic_auth x.decode s
          now r st).0
        ≡ executed 200 result
      → (req : ActionRequest) × (x.decode r ≡ some req)
        × IsLogged x.journal
            (actor_of x.run x.bundle_dir x.host x.disk x.journal x.to_json x.basic_auth x.decode s
              r)
            req
            (unfinished st.log)
            (handle_action x.run x.bundle_dir x.host x.disk x.journal x.to_json x.basic_auth
              x.decode s now r st).1.log
  unfolding handle_action handle_request
  handled-IsLogged s now r st result good = elim (Option-cases (x.decode r)) [
    | inl garbled ↦ absurd (cc (rw (garbled, handle_action) at good))
    | inr (req, decoded) ↦
        let reg = active_registry x.run x.bundle_dir x.host x.disk x.journal x.to_json st in
        let actor =
          actor_of x.run x.bundle_dir x.host x.disk x.journal x.to_json x.basic_auth x.decode s r in
        elim (Outcome-cases (validate_action_request reg req)) [
          | inr (e, refused) ↦
              absurd (cc (rw (decoded, handle_action, refused, handle_request) at good))
          | inl (_, permitted) ↦ (
            req,
            decoded,
            rw (decoded, handle_action, permitted, handle_request)
                (executed-IsLogged actor now req st (
                  replied_ok
                    (execute_action x.run x.bundle_dir x.host x.disk x.journal x.to_json actor now
                      req st)
                    result (rw (decoded, handle_action, permitted, handle_request) at good))),
          )
        ]
  ]

  -- An action that is answered with success stays in the audit log: after it, and after whatever requests
  -- and syncs follow, each over before the next begins, the log has, on a line that a newline ends, the
  -- text of an event that names the actor, the action and its target and says that it went well, however
  -- many writes to the log are cut short. The text is the whole line where the log that the request found
  -- ended with a newline or was empty; otherwise it stands behind the unfinished line that the request
  -- found.
  pub success-IsLogged :
      (sys : System) (s : Server) (now : String) (r : Request) (st : State W)
      (result : ActionResult) (later : State W)
      → (handle_action x.run x.bundle_dir x.host x.disk x.journal x.to_json x.basic_auth x.decode s
          now r st).0
        ≡ executed 200 result
      → Reach sys
          (handle_action x.run x.bundle_dir x.host x.disk x.journal x.to_json x.basic_auth x.decode
            s now r st).1
          later
      → (req : ActionRequest) × (x.decode r ≡ some req)
        × IsLogged x.journal
            (actor_of x.run x.bundle_dir x.host x.disk x.journal x.to_json x.basic_auth x.decode s
              r)
            req
            (unfinished st.log)
            later.log
  success-IsLogged sys s now r st result later good reached =
      let (req, decoded, logged) = handled-IsLogged s now r st result good in
      let then_log =
        (handle_action x.run x.bundle_dir x.host x.disk x.journal x.to_json x.basic_auth x.decode s
          now r st).1.log in
      (
        req,
        decoded,
        IsLogged-stays x.journal _ req (unfinished st.log) then_log later.log
            (Reach-IsKept sys reached).0 logged,
      )
