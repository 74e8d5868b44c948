-- ===== src/Inspect/Found.antt =====
-- main.go, `collectLaunchdServices`: what it finds.
use home_stack.Prelude.{
  false, ◌≡◌, ◌≢◌, refl, sym, ap, ap₂, ◌∙◌, List, [], ◌∷◌, ◌++◌, Option, String, ◌==◌, ◌<>◌,
  Bool-cases, Option-cases, inl, inr, if◌then◌else◌, ok, ◌>>=◌, arith, cut_prefix-append,
  cut_suffix-append, trim_prefix, trim_suffix,
}
use text.Mathlib.TextLemmas.{append_assoc}
use home_stack.Health.{LaunchdService}
use home_stack.Launchd.{label}
use home_stack.Plists.{agent_plist_filename}
use home_stack.Validity.Tokens.{==-eq-false}
use home_stack.Inspect.{
  Machine, service_name, discovered, populate_launchd_status, collect_from,
  collect_launchd_services,
}

-- The services of one name.
abbrev pub named : String → List LaunchdService → List LaunchdService
named filter [] = []
named filter (svc ∷ services) =
    let rest = named filter services in if svc.name == filter then svc ∷ rest else rest

named-append :
    (filter : String) (xs ys : List LaunchdService)
    → named filter (xs ++ ys) ≡ named filter xs ++ named filter ys
named-append filter [] ys = refl
named-append filter (x ∷ xs) ys = ground (arith, named-append filter xs ys)

populated_name :
    (print : String → String → Option String) (svc : LaunchdService)
    → ((populate_launchd_status print svc).name ≡ svc.name)
      × ((populate_launchd_status print svc).label ≡ svc.label)
unfolding populate_launchd_status
populated_name print svc = elim (Option-cases (print svc.domain svc.label)) [
  | inl silent ↦ rw (silent, populate_launchd_status) (refl, refl)
  | inr (output, printed) ↦ rw (printed, populate_launchd_status) (refl, refl)
]

service_name-agent_plist_filename :
    (id name : String) → service_name id (agent_plist_filename id name) ≡ name
unfolding service_name agent_plist_filename trim_prefix trim_suffix
service_name-agent_plist_filename id name =
    let whole = sym (append_assoc id ".home-stack." (name <> ".plist")) in
    let trimmed = cut_prefix-append (id <> ".home-stack.") (name <> ".plist") in
    rw (whole, trimmed, cut_suffix-append name ".plist") refl

discovered_name :
    (m : Machine) (uid id dir scope file : String)
    → (populate_launchd_status m.print (discovered m uid id dir scope file)).name
      ≡ service_name id file
unfolding discovered
discovered_name m uid id dir scope file =
    (populated_name m.print (discovered m uid id dir scope file)).0

collect_from-named :
    (m : Machine) (uid id dir scope filter : String) (files : List String)
    → (filter == "") ≡ false
    → collect_from m uid id dir scope filter files
      ≡ named filter (collect_from m uid id dir scope "" files)
unfolding collect_from
collect_from-named m uid id dir scope filter [] full = refl
collect_from-named m uid id dir scope filter (file ∷ files) full =
    let here = discovered_name m uid id dir scope file in
    let later = collect_from-named m uid id dir scope filter files full in
    elim (Bool-cases (service_name id file == filter)) [
      | inl same ↦ rw (full, same, here, same, later) refl
      | inr other ↦ rw (full, other, here, other, later) refl
    ]

-- Asked for one service, the inspection finds what it finds of that name when it is asked for all, in
-- the same order, and fails where that fails.
pub collect_launchd_services-named :
    (m : Machine) (filter : String)
    → filter ≢ ""
    → collect_launchd_services m filter
      ≡ (collect_launchd_services m "" >>= λ services. ok (named filter services))
unfolding collect_launchd_services
collect_launchd_services-named m filter named_one =
    let id = m.getenv "HOME_STACK_IDENTIFIER_PREFIX" in
    let full = (==-eq-false filter "").1 named_one in
    elim (Bool-cases (id == "")) [
      | inl unset ↦ rw unset refl
      | inr is_set ↦
          rw (is_set, named-append)
            (ap ok (
              ap₂ (λ xs ys. xs ++ ys) (collect_from-named m _ id _ "user" filter _ full)
                (collect_from-named m _ id "/Library/LaunchDaemons" "system" filter _ full)))
    ]

-- The record of the plist that the engine writes for a service.
abbrev pub installed : Machine → String → String → String → String → String → LaunchdService
installed m uid id dir scope name =
    populate_launchd_status m.print (discovered m uid id dir scope (agent_plist_filename id name))

-- The plist that the engine writes for a service under an identifier prefix is found as that service,
-- and looked for in launchd by the label that the engine wrote in it.
pub installed_label :
    (m : Machine) (uid id dir scope name : String)
    → ((installed m uid id dir scope name).name ≡ name)
      × ((installed m uid id dir scope name).label ≡ label id name)
unfolding discovered
installed_label m uid id dir scope name =
    let file = agent_plist_filename id name in
    let read = service_name-agent_plist_filename id name in
    let (same, kept) = populated_name m.print (discovered m uid id dir scope file) in
    (same ∙ read, kept ∙ ap (label id) read)
