-- ===== src/Health/Overall.antt =====
-- main.go and incidents.go: the state of the stack, and the counts of the services by state.
use home_stack.Prelude.{
  ℕ, ◌+◌, Bool, ◌≡◌, ◌||◌, List, [], ◌∷◌, String, ◌==◌, arith, refl, inl, inr, length, Bool-cases,
  if◌then◌else◌, any, ◌∙◌,
}
use home_stack.Health.{
  Incident, overall_from, overall_state_from_incidents, Counts, count_state, count_from,
  count_service_states, ServiceStatus,
}

abbrev pub has_severity : String → Incident → Bool
has_severity severity i = i.severity == severity

-- What the worst severity of a list of incidents says of the stack.
unfoldable pub worst : String → List Incident → String
worst usual incidents =
    if any (has_severity "critical") incidents
    then "down"
    else if any (has_severity "warning") incidents
    then "degraded"
    else usual

worst_degraded :
    (rest : List Incident)
    → worst "degraded" rest ≡ (if any (has_severity "critical") rest then "down" else "degraded")
unfolding worst
worst_degraded rest = ground arith

overall_from-worst :
    (state : String) (incidents : List Incident)
    → overall_from state incidents ≡ worst state incidents
unfolding overall_from worst
overall_from-worst state [] = refl
overall_from-worst state (i ∷ rest) = elim (Bool-cases (i.severity == "critical")) [
  | inl critical ↦ simp critical
  | inr other ↦ elim (Bool-cases (i.severity == "warning")) [
    | inl warning ↦ simp (other, warning) (overall_from-worst "degraded" rest ∙ worst_degraded rest)
    | inr mild ↦ simp (other, mild) (overall_from-worst state rest)
  ]
]

-- The stack is down when an incident is critical, degraded when none is and one is a warning, and
-- healthy otherwise, in whatever order the incidents come.
pub overall_state-worst :
    (incidents : List Incident) → overall_state_from_incidents incidents ≡ worst "healthy" incidents
unfolding overall_state_from_incidents
overall_state-worst incidents = overall_from-worst "healthy" incidents

abbrev pub total : Counts → ℕ
total c = c.healthy + c.degraded + c.down + c.unknown + c.disabled

count_state-total : (c : Counts) (state : String) → total (count_state c state) ≡ total c + 1
count_state-total c state = elim (Bool-cases (state == "healthy" || state == "ok")) [
  | inl e ↦ simp e (omega arith)
  | inr e ↦ simp e (elim (Bool-cases (state == "degraded" || state == "warn")) [
    | inl f ↦ simp f (omega arith)
    | inr f ↦ simp f (elim (Bool-cases (state == "down")) [
      | inl g ↦ simp g (omega arith)
      | inr g ↦ simp g (elim (Bool-cases (state == "disabled")) [
        | inl h ↦ simp h (omega arith)
        | inr h ↦ simp h (omega arith)
      ])
    ])
  ])
]

count_from-total :
    (c : Counts) (services : List ServiceStatus)
    → total (count_from c services) ≡ total c + length services
unfolding count_from
count_from-total c [] = omega arith
count_from-total c (s ∷ rest) =
    let later = count_from-total (count_state c s.overall_state) rest in
    let here = count_state-total c s.overall_state in omega arith

-- Every service is counted once, whatever its state says.
pub count_service_states-total :
    (services : List ServiceStatus) → total (count_service_states services) ≡ length services
unfolding count_service_states
count_service_states-total services = count_from-total _ services ∙ omega arith
