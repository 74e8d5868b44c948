-- ===== src/Doctor/Verdict.antt =====
-- doctor.go: when the doctor is content.
use home_stack.Prelude.{
  Bool, true, ◌≡◌, ◌≢◌, ◌↔◌, ◌⊎◌, refl, Option, none, some, String, ◌==◌, eq_iff, arith, Bool-cases,
  Option-cases, inl, inr,
}
use home_stack.Validity.Tokens.{==-eq-false}
use home_stack.Doctor.{Url, is_loopback_name, doctor_checks, handle_doctor}

module _ (parse : String → Option Url) (is_loopback : String → Bool) where
  abbrev pub IsLocal : String → Type 0
  IsLocal url =
      (u : Url) × (parse url ≡ some u)
      × ((u.hostname ≡ "127.0.0.1") ⊎ (u.hostname ≡ "localhost") ⊎ (u.hostname ≡ "::1"))

  is_loopback_name_iff :
      (url : String) → (is_loopback_name parse is_loopback (parse url) ≡ true) ↔ IsLocal url
  is_loopback_name_iff url = elim (Option-cases (parse url)) [
    | inl broken ↦ rw (broken, is_loopback_name) (λ h. cc, λ (u, found, _). cc)
    | inr (u, parsed) ↦
        let first = eq_iff u.hostname "127.0.0.1" in
        let second = eq_iff u.hostname "localhost" in
        let third = eq_iff u.hostname "::1" in
        rw (parsed, is_loopback_name)
          (
            λ h. (u, refl, ground (arith, first, second, third)),
            λ (v, same, named).
                let e : u ≡ v = cc in
                let named' : (u.hostname ≡ "127.0.0.1")
                    ⊎ (u.hostname ≡ "localhost")
                    ⊎ (u.hostname ≡ "::1") =
                  rw e named in
                ground (arith, first, second, third, named'),
          )
  ]

  present_iff :
      (admin_password url : String)
      → ((handle_doctor parse is_loopback admin_password url none).0 ≡ true)
        ↔ ((admin_password ≢ "") × IsLocal url)
  unfolding handle_doctor doctor_checks
  present_iff admin_password url =
      let here = is_loopback_name_iff url in
      elim (Bool-cases (admin_password == "")) [
        | inl e ↦
            simp e (λ h. absurd (cc h), λ (full, _). absurd (full ((eq_iff admin_password "").0 e)))
        | inr e ↦ elim (Bool-cases (is_loopback_name parse is_loopback (parse url))) [
          | inl l ↦ simp (e, l) (λ _. ((==-eq-false admin_password "").0 e, here.0 l), λ _. refl)
          | inr l ↦ simp (e, l) (λ h. absurd (cc h), λ (_, t). absurd (cc (l, here.1 t)))
        ]
      ]

  -- The doctor is content exactly when there is an admin password and the URL of Caddy names one of
  -- three hosts; a missing Caddy is only a warning.
  pub handle_doctor_iff :
      (admin_password url : String) (missing_binary : Option String)
      → ((handle_doctor parse is_loopback admin_password url missing_binary).0 ≡ true)
        ↔ ((admin_password ≢ "") × IsLocal url)
  unfolding handle_doctor doctor_checks
  handle_doctor_iff admin_password url none = present_iff admin_password url
  handle_doctor_iff admin_password url (some e) = present_iff admin_password url
