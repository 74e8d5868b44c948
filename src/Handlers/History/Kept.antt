-- ===== src/Handlers/History/Kept.antt =====
-- main.go, `handleAction` and `runSync`: what holds of the registry and of the audit log at every moment
-- of a history.
use home_stack.Prelude.{
  ap₂, Result, ◌≡◌, ◌⊎◌, inl, inr, refl, sym, ◌∙◌, subst, subst₂, Option, String, Option-cases,
  Outcome-cases,
}
use home_stack.Registry.{Registry}
use home_stack.Http.{Request, Server}
use home_stack.Actions.{ActionRequest, validate_action_request}
use home_stack.Edits.{
  Disk, File, missing, unreadable, holds, System, check_loaded, LoadError, load_registry,
}
use home_stack.Edits.Atomic.{Loads}
use home_stack.Events.Growth.{
  IsExtended, IsExtended-refl, IsExtended-trans, append_event-IsExtended,
}
use home_stack.Execute.{State, active_registry, system, sync, perform, execute_action}
use home_stack.Execute.Audit.{audited_log}
use home_stack.Execute.Effects.{kept_profile}
use home_stack.Execute.Growth.{sync-IsGentle, perform-IsGentle}
use home_stack.Handlers.{actor_of, handle_request, handle_action}
use home_stack.Handlers.History.{
  Setting, IsSettled, Step, handled, synced, passed, Reach, here, next,
}

load_registry_cong :
    (a b : System)
    → a.unmarshal ≡ b.unmarshal
    → a.parent_domain ≡ b.parent_domain
    → (f : File) → load_registry a f ≡ load_registry b f
unfolding load_registry check_loaded
load_registry_cong a b parser domain missing = refl
load_registry_cong a b parser domain unreadable = refl
load_registry_cong a b parser domain (holds text) =
    let loaded : (String → Option Registry) → String → Result LoadError Registry =
      λ u d. load_registry (record a { unmarshal = u; parent_domain = d }) (holds text) in
    ap₂ loaded parser domain

module _ {W : Type 0} (sys : System) where
  -- What a step leaves: a log that only grows, and a registry that loads if it did.
  abbrev pub IsKept : State W → State W → Type 0
  IsKept st after =
      IsExtended st.log after.log
      × (Loads sys st.profile.registry → Loads sys after.profile.registry)

  IsKept-refl : (st : State W) → IsKept st st
  IsKept-refl st = (IsExtended-refl st.log, λ loads. loads)

  module _ (x : Setting W) (settled : IsSettled sys x) where
    abbrev own : System
    own = system x.run x.bundle_dir x.host x.disk x.journal x.to_json

    own-Loads : (f : File) → Loads own f → Loads sys f
    own-Loads f (r, loaded) = (r, sym (load_registry_cong own sys settled.0 settled.1 f) ∙ loaded)

    -- What an action leaves before the audit.
    IsGentle-Loads :
        (before after : File)
        → (after ≡ before) ⊎ Loads own after
        → Loads sys before
        → Loads sys after
    IsGentle-Loads before after (inl same) loads = subst (Loads sys) (sym same) loads
    IsGentle-Loads before after (inr own_loaded) loads = own-Loads after own_loaded

    sync-IsKept :
        (st : State W) → IsKept st (sync x.run x.bundle_dir x.host x.disk x.journal x.to_json st).1
    sync-IsKept st =
        let gentle = sync-IsGentle x.run x.bundle_dir x.host x.disk x.journal x.to_json st in
        (
          subst (λ log. IsExtended st.log log) (sym gentle.0) (IsExtended-refl st.log),
          IsGentle-Loads _ _ gentle.1,
        )

    execute-IsKept :
        (actor now : String) (req : ActionRequest) (st : State W)
        → IsKept st
            (execute_action x.run x.bundle_dir x.host x.disk x.journal x.to_json actor now req st).1
    execute-IsKept actor now req st =
        let gentle = perform-IsGentle x.run x.bundle_dir x.host x.disk x.journal x.to_json req st in
        let (evt, logged) =
          audited_log x.run x.bundle_dir x.host x.disk x.journal x.to_json actor now req st in
        (
          subst₂ IsExtended gentle.0 (sym logged) (
              append_event-IsExtended x.journal evt
                (perform x.run x.bundle_dir x.host x.disk x.journal x.to_json req st).1.log),
          λ loads.
              subst (λ (d : Disk). Loads sys d.registry)
                (sym (
                  kept_profile x.run x.bundle_dir x.host x.disk x.journal x.to_json actor now req
                    st))
                (IsGentle-Loads _ _ gentle.1 loads),
        )

    handle-IsKept :
        (s : Server) (now : String) (r : Request) (st : State W)
        → IsKept st
            (handle_action x.run x.bundle_dir x.host x.disk x.journal x.to_json x.basic_auth
              x.decode s now r st).1
    unfolding handle_action handle_request
    handle-IsKept s now r st = elim (Option-cases (x.decode r)) [
      | inl garbled ↦ rw (garbled, handle_action) (IsKept-refl st)
      | inr (req, decoded) ↦
          elim (Outcome-cases (
            validate_action_request
              (active_registry x.run x.bundle_dir x.host x.disk x.journal x.to_json st) req)) [
                | inr (e, refused) ↦
                    rw (decoded, handle_action, refused, handle_request) (IsKept-refl st)
                | inl (_, permitted) ↦
                    rw (decoded, handle_action, permitted, handle_request)
                      (execute-IsKept
                        (actor_of x.run x.bundle_dir x.host x.disk x.journal x.to_json x.basic_auth
                          x.decode s r)
                        now req st)
              ]
    ]

  IsKept-trans : (a b c : State W) → IsKept a b → IsKept b c → IsKept a c
  IsKept-trans a b c first second =
      (IsExtended-trans a.log b.log c.log first.0 second.0, λ loads. second.1 (first.1 loads))

  Step-IsKept : {st after : State W} → Step sys st after → IsKept st after
  Step-IsKept (handled x settled s now r st) = handle-IsKept x settled s now r st
  Step-IsKept (synced x settled st) = sync-IsKept x settled st
  Step-IsKept (passed w b temp st) = (IsExtended-refl st.log, λ loads. loads)

  pub Reach-IsKept : {st after : State W} → Reach sys st after → IsKept st after
  Reach-IsKept {st = st} here = IsKept-refl st
  Reach-IsKept {st = st} (next {t = t} {u = u} before step) =
      IsKept-trans st t u (Reach-IsKept before) (Step-IsKept step)

  -- A registry that loads keeps loading: where the requests and the syncs come one after the other, each
  -- over before the next begins, in whatever order, and whichever of the commands, reads and writes fail
  -- at each of them, the profile's services.yaml loads as a valid registry after every one of them,
  -- whatever others put into services.yaml.tmp in between. The YAML parser and the parent domain
  -- stay the same. Requests that are handled at the same time are not covered.
  pub registry-Loads :
      (st after : State W)
      → Loads sys st.profile.registry
      → Reach sys st after
      → Loads sys after.profile.registry
  registry-Loads st after loads reached = (Reach-IsKept reached).1 loads
