-- ===== src/Handlers/History.antt =====
-- main.go, `handleAction` and `runSync`: what the admin server's requests, and the runs of `sync` from
-- the command line beside it, make of the registry and of the audit log in the course of time, where
-- each is over before the next begins. The program does not see to that: net/http calls its handlers
-- concurrently, and the edits of the registry take no lock.
pub mod Kept
pub mod Logged
use home_stack.Prelude.{
  true, ap₂, Result, ◌≡◌, ◌⊎◌, inl, inr, refl, sym, ap, ◌∙◌, subst, subst₂, List, ◌∷◌, ◌++◌, Option,
  none, some, String, ok, Option-cases, Outcome-cases,
}
use home_stack.Registry.{Registry}
use home_stack.Http.{Request, Server}
use home_stack.Actions.{ActionRequest, RunError, validate_action_request}
use home_stack.Edits.{
  Disk, File, missing, unreadable, holds, System, check_loaded, LoadError, load_registry,
}
use home_stack.Edits.Atomic.{Loads}
use home_stack.Artifacts.{Bundle, Storage}
use home_stack.Deploy.{Host, DeployDiff}
use home_stack.Events.{AdminEvent, Journal, redacted, append_event}
use home_stack.Events.Growth.{
  recorded, IsExtended, IsExtended-refl, IsExtended-trans, IsExtended-line, append_event-IsExtended,
  append_event-last,
}
use home_stack.Execute.{
  State, ActionResult, active_registry, system, sync, perform, result_of, event_of, execute_action,
}
use home_stack.Execute.Audit.{ok_audited, audited_log}
use home_stack.Execute.Effects.{kept_profile}
use home_stack.Execute.Growth.{sync-IsGentle, perform-IsGentle}
use home_stack.Handlers.{actor_of, handle_request, handle_action}

-- What stands around the program at one moment: how the commands run, and what the disk, the libraries
-- and the environment do then. Each of them may fail at one moment and not at another.
pub record Setting (W : Type 0) : Type 0 where
  pub run : List String → W → (String × Option RunError) × W
  pub bundle_dir : String
  pub host : Host
  pub disk : Storage
  pub journal : Journal
  pub to_json : DeployDiff → String
  pub basic_auth : Request → Option (String × String)
  pub decode : Request → Option ActionRequest

-- `sys` is the YAML parser and the parent domain that hold throughout.
module _ {W : Type 0} (sys : System) where
  -- The parser and the parent domain are the same at every moment.
  abbrev pub IsSettled : Setting W → Type 0
  IsSettled x =
      (x.host.sys.unmarshal ≡ sys.unmarshal)
      × (x.host.getenv "HOME_STACK_PARENT_DOMAIN" ≡ sys.parent_domain)

  -- A request that reaches `handleAction` and is answered before anything else happens, a `sync`, or a
  -- change that others make to the world, to the bundle and to services.yaml.tmp in between.
  pub data Step : State W → State W → Type 0 where
    handled :
        (x : Setting W)
        → IsSettled x
        → (s : Server) (now : String) (r : Request) (st : State W)
        → Step st
            (handle_action x.run x.bundle_dir x.host x.disk x.journal x.to_json x.basic_auth
              x.decode s now r st).1
    synced :
        (x : Setting W)
        → IsSettled x
        → (st : State W) → Step st (sync x.run x.bundle_dir x.host x.disk x.journal x.to_json st).1
    passed :
        (w : W) (b : Bundle) (temp : File) (st : State W)
        → Step st (record st { world = w; bundle = b; profile = record st.profile { temp = temp } })

  pub data Reach (st : State W) : State W → Type 0 where
    here : Reach st st
    next : {t u : State W} → Reach st t → Step t u → Reach st u
