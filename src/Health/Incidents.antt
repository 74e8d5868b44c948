-- ===== src/Health/Incidents.antt =====
-- incidents.go, `deriveIncidents`, against main.go, `deriveOverall`.
use home_stack.Prelude.{
  ℕ, Bool, true, false, ◌≡◌, ◌≢◌, ◌⊎◌, String, ◌==◌, arith, refl, inl, inr, Option, none, some,
  Option-cases, eq_iff, zero, suc, if◌then◌else◌,
}
use home_stack.Validity.Tokens.{differ}
use home_stack.Health.{
  Incident, ServiceStatus, CheckStatus, LaunchdStatus, is_optional_service, incident_of,
  derive_overall, settle, not_running, failing, failed, warns, down, Verdict, launchd_verdict,
  any_failed,
}

module _ (quote : String → String) where
  -- A service that is optional, by its type, its kind or its name, raises incidents of the severity
  -- `info` only.
  pub optional_info :
      (s : ServiceStatus) (i : Incident)
      → is_optional_service s ≡ true
      → incident_of quote s ≡ some i
      → i.severity ≡ "info"
  unfolding incident_of
  optional_info s i optional found = ground arith

not_down : (warn : Bool) → ◌≢◌ {A = String} (if warn then "warn" else "ok") "down"
not_down true e = differ {s = "warn"} refl refl e
not_down false e = differ {s = "ok"} refl refl e

settle-down : (v : Verdict) (f : Bool) (n : ℕ) → settle v f n ≡ "down" → (v ≡ down) ⊎ (f ≡ true)
unfolding settle
settle-down down f n e = inl refl
settle-down (warns w) true n e = inr refl
settle-down (warns w) false zero e = cc
settle-down (warns w) false (suc n) e = absurd (not_down w e)

pub settle-ok :
    (v : Verdict) (f : Bool) (n : ℕ) → settle v f n ≡ "ok" → (v ≡ warns false) × (f ≡ false)
unfolding settle
settle-ok down f n e = cc
settle-ok (warns w) true n e = cc
settle-ok (warns w) false zero e = cc
settle-ok (warns true) false (suc n) e = cc
settle-ok (warns false) false (suc n) e = (refl, refl)

pub settle-disabled : (v : Verdict) (f : Bool) (n : ℕ) → settle v f n ≢ "disabled"
unfolding settle
settle-disabled down f n e = cc
settle-disabled (warns w) true n e = cc
settle-disabled (warns w) false zero e = cc
settle-disabled (warns true) false (suc n) e = cc
settle-disabled (warns false) false (suc n) e = cc

verdict_down :
    (kind : String) (l : Option LaunchdStatus)
    → launchd_verdict kind l ≡ down
    → not_running l ≡ some "not loaded"
unfolding launchd_verdict
verdict_down kind none e = cc
verdict_down kind (some l) e =
    let known : l.state ≡ "not loaded" = ground (arith, eq_iff l.state "not loaded") in
    rw known refl

verdict_calm :
    (kind : String) (l : Option LaunchdStatus)
    → launchd_verdict kind l ≡ warns false
    → (not_running l ≡ none) ⊎ (kind ≡ "scheduled")
unfolding launchd_verdict
verdict_calm kind none e = inl refl
verdict_calm kind (some l) e = ground (arith, eq_iff kind "scheduled")

failing-none : (c : Option CheckStatus) → failed c ≡ false → failing c ≡ none
failing-none none e = refl
failing-none (some c) e = ground arith

failing_some : (c : Option CheckStatus) → failing c ≡ none → failed c ≡ false
failing_some none e = refl
failing_some (some c) e = ground arith

module _ (quote : String → String) where
  -- A service that is down has an incident.
  pub down_raises :
      (s : ServiceStatus)
      → (s.overall_state == "disabled") ≡ false
      → derive_overall s ≡ "down"
      → (i : Incident) × (incident_of quote s ≡ some i)
  unfolding derive_overall incident_of any_failed
  down_raises s enabled is_down = elim (Option-cases (not_running s.launchd)) [
    | inr (state, e) ↦ simp (enabled, e) (_, refl)
    | inl e ↦
        simp (enabled, e)
          (elim (Option-cases (failing s.port)) [
            | inr (c, f) ↦ simp f (_, refl)
            | inl f ↦ simp f (elim (Option-cases (failing s.route)) [
              | inr (c, g) ↦ simp g (_, refl)
              | inl g ↦ simp g (elim (Option-cases (failing s.http)) [
                | inr (c, h) ↦ simp h (_, refl)
                | inl h ↦ elim (settle-down _ _ _ is_down) [
                  | inl v ↦ let known = verdict_down s.kind s.launchd v in cc
                  | inr some_failed ↦
                      ground (
                        arith,
                        failing_some s.port f,
                        failing_some s.route g,
                        failing_some s.http h,
                      )
                ]
              ])
            ])
          ])
  ]

  -- A service that is in order has none, except for a scheduled job between two runs.
  pub ok_quiet :
      (s : ServiceStatus)
      → (s.overall_state == "disabled") ≡ false
      → derive_overall s ≡ "ok"
      → (incident_of quote s ≡ none) ⊎ (s.kind ≡ "scheduled")
  unfolding derive_overall incident_of any_failed
  ok_quiet s enabled is_ok =
      let (calm, passed) = settle-ok _ _ _ is_ok in
      let port = failing-none s.port (ground arith) in
      let route = failing-none s.route (ground arith) in
      let http = failing-none s.http (ground arith) in
      elim (verdict_calm s.kind s.launchd calm) [
        | inl e ↦ inl (simp (enabled, e, port, route, http) refl)
        | inr e ↦ inr e
      ]
