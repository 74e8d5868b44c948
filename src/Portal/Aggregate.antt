-- ===== src/Portal/Aggregate.antt =====
-- portal.go, `aggregatePortalState` and `buildPortalStatus`: the state of the whole stack.
use home_stack.Prelude.{
  Bool, true, false, ◌&&◌, ◌||◌, ◌≡◌, List, [], ◌∷◌, String, ◌==◌, refl, inl, inr, Bool-cases,
  arith, eq_iff, if◌then◌else◌, any, all, ap, sym,
}
use home_stack.Validity.Tokens.{==-eq-false, differ}
use home_stack.Health.{ServiceStatus}
use home_stack.Portal.{
  aggregate_from, aggregate_portal_state, counted_states, build_portal_status, portal_state,
}

abbrev is_unavailable : String → Bool
is_unavailable state = state == "unavailable"

abbrev is_unknown : String → Bool
is_unknown state = state == "unknown"

abbrev is_lacking : String → Bool
is_lacking state = state == "degraded" || state == "unknown"

-- What the loop answers at the values of its two flags.
aggregate_from-flags :
    (all_unknown degraded : Bool) (states : List String)
    → aggregate_from all_unknown degraded states ≡ (
        if any is_unavailable states
        then "unavailable"
        else if all_unknown && all is_unknown states
        then "unknown"
        else if degraded || any is_lacking states
        then "degraded"
        else "healthy")
unfolding aggregate_from
aggregate_from-flags all_unknown degraded [] = ground arith
aggregate_from-flags all_unknown degraded (state ∷ rest) =
    let worse = aggregate_from-flags false true rest in
    let unsure = aggregate_from-flags all_unknown true rest in
    let later = aggregate_from-flags false degraded rest in
    let apart : (state == "degraded") ≡ true → (state == "unknown") ≡ false =
      λ e. (==-eq-false state "unknown").1 (λ k. differ refl ((eq_iff state "degraded").0 e) k) in
    elim (Bool-cases (state == "unavailable")) [
      | inl e ↦ simp e refl
      | inr e ↦ simp e (elim (Bool-cases (state == "degraded")) [
        | inl f ↦ simp (f, apart f, worse) (ground arith)
        | inr f ↦ simp f (elim (Bool-cases (state == "unknown")) [
          | inl g ↦ simp (g, unsure) (ground arith)
          | inr g ↦ simp (g, later) (ground arith)
        ])
      ])
    ]

-- What a list of states says of the whole.
abbrev pub aggregate : List String → String
aggregate states =
    if any is_unavailable states
    then "unavailable"
    else if all is_unknown states
    then "unknown"
    else if any is_lacking states
    then "degraded"
    else "healthy"

-- The states together are "unavailable" when one of them is, or else "unknown" when all of them are
-- (so when there are none), or else "degraded" when one of them is degraded or unknown, and
-- otherwise "healthy".
pub aggregate_portal_state_lem :
    (states : List String) → aggregate_portal_state states ≡ aggregate states
unfolding aggregate_portal_state
aggregate_portal_state_lem [] = refl
aggregate_portal_state_lem (state ∷ rest) = aggregate_from-flags true false (state ∷ rest)

-- The services that are switched on.
unfoldable pub switched_on : List ServiceStatus → List ServiceStatus
switched_on [] = []
switched_on (s ∷ rest) =
    if s.overall_state == "disabled" then switched_on rest else s ∷ switched_on rest

counted-switched_on :
    (services : List ServiceStatus)
    → counted_states (switched_on services) ≡ counted_states services
unfolding counted_states switched_on
counted-switched_on [] = refl
counted-switched_on (s ∷ rest) = elim (Bool-cases (s.overall_state == "disabled")) [
  | inl e ↦ simp e (counted-switched_on rest)
  | inr e ↦ simp e (ap (λ l. portal_state s.overall_state ∷ l) (counted-switched_on rest))
]

-- Services that are switched off do not change the state that the portal shows for the stack.
pub disabled_uncounted :
    (services : List ServiceStatus)
    → (build_portal_status services).overall_state
      ≡ (build_portal_status (switched_on services)).overall_state
unfolding build_portal_status
disabled_uncounted services = ap aggregate_portal_state (sym (counted-switched_on services))
