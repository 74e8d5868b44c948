-- ===== src/Validate.antt =====
-- engine.go, `Validate`: the errors, the checks of one service in the order of the loop's body, and
-- the check of the auth broker that follows the loop.
pub mod Errors
pub mod Tokens
pub mod Checks
pub use Errors.*
unfoldable pub use Tokens.*
unfoldable pub use Checks.*
use home_stack.Prelude.{
  Bool, ◌||◌, ◌&&◌, not, List, [], ◌∷◌, Option, none, some, String, ◌==◌, if◌then◌else◌, Result, ok,
  err, ◌>>=◌, ◌>>◌, Map, lookup, sort_strings,
}
use home_stack.Prelude.Regex.{match_string}
use home_stack.Registry.{Service, Registry, auth_broker_service, is_enabled, requires_auth_broker}

unfoldable pub validate_identifier_prefix : String → Bool
unfolding match_string
validate_identifier_prefix prefix = match_string identifier_pattern prefix

-- The loop over the services; `services` is the whole map, `rest` what is still to come.
unfoldable pub check_services :
    Map Service → String → Map Service → Result ValidationError (Unit {0})
check_services services parent_domain [] = ok tt
check_services services parent_domain ((name, svc) ∷ rest) =
    elim (check_service services parent_domain name svc) [
      | ok _ ↦ check_services services parent_domain rest
      | err e ↦ err (in_service name e)
    ]

-- The enabled services, other than the broker, that need the broker.
unfoldable pub broker_dependents : Map Service → List String
unfolding is_enabled requires_auth_broker
broker_dependents [] = []
broker_dependents ((name, svc) ∷ rest) =
    let later = broker_dependents rest in
    if name == auth_broker_service || not (is_enabled svc)
    then later
    else if requires_auth_broker svc
    then name ∷ later
    else later

abbrev pub refuse_dependents : List String → Result ValidationError (Unit {0})
refuse_dependents [] = ok tt
refuse_dependents (n ∷ ns) = err (broker_disabled (sort_strings (n ∷ ns)))

unfoldable pub check_broker_enabled : Map Service → Result ValidationError (Unit {0})
check_broker_enabled services = elim (lookup auth_broker_service services) [
  | none ↦ ok tt
  | some broker ↦
      if not (is_enabled broker) then refuse_dependents (broker_dependents services) else ok tt
]

unfoldable pub validate : Registry → String → Result ValidationError (Unit {0})
validate r parent_domain = do
  check_services r.services parent_domain r.services
  check_broker_enabled r.services
