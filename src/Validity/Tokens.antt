-- ===== src/Validity/Tokens.antt =====
-- engine.go, the checks of single texts against their meaning.
use home_stack.Prelude.{
  ℕ, Bool, true, false, ◌≡◌, ◌≢◌, ◌↔◌, refl, sym, ◌∙◌, String, ◌==◌, eq_iff, arith, Result, ok, err,
  ◌>>◌, refuse_if, contains_any, codes, Bool-cases, inl, inr, not, ◌&&◌, ◌||◌,
}
use home_stack.Prelude.Regex.{Regex, match_string}
use home_stack.Prelude.Regex.Language.{Matches, match_string_iff}
use home_stack.Validate.{
  TokenError, ServiceError, wrapped, validate_display_token, validate_token, validate_caddy_token,
  validate_host, validate_subdomain, host_overlaps_parent, is_control, is_blank, is_space,
  host_pattern, subdomain_pattern,
}
use home_stack.Validity.{Lacks, IsToken, IsCaddyToken, IsHost, IsOutside}

-- A chain of checks passes when each one does.
pub >>-eq-ok {ℓ τ} :
    {E : Type τ} {B : Type ℓ} (m : Result E (Unit {0})) (k : Result E B) {b : B}
    → ((m >> k) ≡ ok b) ↔ ((m ≡ ok tt) × (k ≡ ok b))
>>-eq-ok (ok tt) k = (λ e. (refl, e), λ h. h.1)
>>-eq-ok (err e) k = (λ h. cc, λ h. cc)

pub refuse_if-eq-ok {τ} : {E : Type τ} (b : Bool) (e : E) → (refuse_if b e ≡ ok tt) ↔ (b ≡ false)
refuse_if-eq-ok true e = (λ h. cc, λ h. cc)
refuse_if-eq-ok false e = (λ h. refl, λ h. refl)

pub wrapped-eq-ok :
    (m : Result TokenError (Unit {0})) (f : TokenError → ServiceError)
    → (wrapped m f ≡ ok tt) ↔ (m ≡ ok tt)
wrapped-eq-ok (ok tt) f = (λ h. refl, λ h. refl)
wrapped-eq-ok (err e) f = (λ h. cc, λ h. cc)

pub ==-eq-false : (s t : String) → ((s == t) ≡ false) ↔ (s ≢ t)
==-eq-false s t = (λ h e. ground (arith, eq_iff s t), λ h. ground (arith, eq_iff s t))

-- A text is not equal to two texts that differ.
pub differ : {s t u : String} → (t == u) ≡ false → s ≡ t → s ≡ u → ⊥
differ {t = t} {u = u} h e k = (==-eq-false t u).0 h (sym e ∙ k)

pub or-eq-false : (a b : Bool) → (a || b ≡ false) ↔ ((a ≡ false) × (b ≡ false))
or-eq-false true b = (λ h. cc, λ h. cc)
or-eq-false false b = (λ h. (refl, h), λ h. h.1)

pub contains_any-eq-false : (p : ℕ → Bool) (s : String) → (contains_any p s ≡ false) ↔ Lacks p s
unfolding contains_any
contains_any-eq-false p String.[] = (λ h. tt, λ h. refl)
contains_any-eq-false p (String.◌∷◌ c s) = ground (arith, contains_any-eq-false p s)

pub match-eq-false :
    (r : Regex) (s : String) → (not (match_string r s) ≡ false) ↔ Matches r (codes s)
match-eq-false r s = ground (arith, match_string_iff r s)

pub iff_trans {ℓ κ τ} : {A : Type ℓ} {B : Type κ} {C : Type τ} → A ↔ B → B ↔ C → A ↔ C
iff_trans f g = (λ a. g.0 (f.0 a), λ c. f.1 (g.1 c))

pub iff_both {ℓ κ τ ν} :
    {A : Type ℓ} {B : Type κ} {C : Type τ} {D : Type ν} → A ↔ B → C ↔ D → (A × C) ↔ (B × D)
iff_both f g = (λ (a, c). (f.0 a, g.0 c), λ (b, d). (f.1 b, g.1 d))

-- Two checks in a row.
pub both_checks {ℓ τ} :
    {E : Type τ} {P Q : Type ℓ} (m k : Result E (Unit {0}))
    → (m ≡ ok tt) ↔ P
    → (k ≡ ok tt) ↔ Q
    → ((m >> k) ≡ ok tt) ↔ (P × Q)
both_checks m k f g = iff_trans (>>-eq-ok m k) (iff_both f g)

-- A refusal on a test that means `P` fails.
pub refuses {ℓ τ} :
    {E : Type τ} {P : Type ℓ} (b : Bool) (e : E) → (b ≡ false) ↔ P → (refuse_if b e ≡ ok tt) ↔ P
refuses b e f = iff_trans (refuse_if-eq-ok b e) f

pub wraps :
    {P : Type 0} (m : Result TokenError (Unit {0})) (f : TokenError → ServiceError)
    → (m ≡ ok tt) ↔ P
    → (wrapped m f ≡ ok tt) ↔ P
wraps m f h = iff_trans (wrapped-eq-ok m f) h

pub validate_display_token_iff :
    (field value : String) → (validate_display_token field value ≡ ok tt) ↔ Lacks is_control value
unfolding validate_display_token
validate_display_token_iff field value = refuses _ _ (contains_any-eq-false is_control value)

Lacks-nil : (p : ℕ → Bool) (s : String) → s ≡ "" → Lacks p s
Lacks-nil p s e = rw e tt

pub optional_token_iff :
    (field value : String) → (validate_token field value true ≡ ok tt) ↔ Lacks is_control value
unfolding validate_token
optional_token_iff field value = elim (Bool-cases (value == "")) [
  | inl blank ↦ rw blank (λ _. Lacks-nil is_control value ((eq_iff value "").0 blank), λ _. refl)
  | inr full ↦ rw full (refuses _ _ (contains_any-eq-false is_control value))
]

pub required-IsToken_iff :
    (field value : String) → (validate_token field value false ≡ ok tt) ↔ IsToken value
unfolding validate_token
required-IsToken_iff field value = elim (Bool-cases (value == "")) [
  | inl blank ↦ rw blank (λ h. cc, λ h. absurd (h.0 ((eq_iff value "").0 blank)))
  | inr full ↦ rw full (
      iff_trans (refuses _ _ (contains_any-eq-false is_control value))
        (λ h. ((==-eq-false value "").0 full, h), λ h. h.1))
]

nonblank_iff :
    (value : String)
    → (not (value == "") && contains_any is_blank value ≡ false)
      ↔ (value ≢ "" → Lacks is_blank value)
nonblank_iff value = elim (Bool-cases (value == "")) [
  | inl blank ↦ rw blank (λ _ h. absurd (h ((eq_iff value "").0 blank)), λ _. refl)
  | inr full ↦ rw full (
      iff_trans (contains_any-eq-false is_blank value)
        (λ h _. h, λ h. h ((==-eq-false value "").0 full)))
]

pub IsCaddyToken-iff :
    (field value : String) → (validate_caddy_token field value false ≡ ok tt) ↔ IsCaddyToken value
unfolding validate_caddy_token
IsCaddyToken-iff field value =
    iff_trans
      (both_checks _ _ (required-IsToken_iff field value) (refuses _ _ (nonblank_iff value)))
      (λ h. (h.0, h.1 h.0.0), λ h. (h.0, λ _. h.1))

not-Matches-nil : ¬ Matches host_pattern (codes "")
unfolding match_string
not-Matches-nil m =
    let none_left : match_string host_pattern "" ≡ false = refl in
    cc ((match_string_iff host_pattern "").1 m, none_left)

IsHost-test_iff :
    (host : String)
    → (contains_any is_space host || not (match_string host_pattern host) ≡ false) ↔ IsHost host
IsHost-test_iff host =
    iff_trans (or-eq-false _ _)
      (iff_both (contains_any-eq-false is_space host) (match-eq-false host_pattern host))

pub validate_host_iff : (host : String) → (validate_host host ≡ ok tt) ↔ IsHost host
unfolding validate_host
validate_host_iff host =
    iff_trans
      (both_checks _ _ (refuses _ _ (==-eq-false host "")) (refuses _ _ (IsHost-test_iff host)))
      (λ h. h.1, λ h. (λ e. not-Matches-nil (rw e at h.1), h))

pub validate_subdomain_iff :
    (sub : String) → (validate_subdomain sub ≡ ok tt) ↔ Matches subdomain_pattern (codes sub)
unfolding validate_subdomain
validate_subdomain_iff sub = refuses _ _ (match-eq-false subdomain_pattern sub)

pub overlaps_iff :
    (host parent : String) → (host_overlaps_parent host parent ≡ false) ↔ IsOutside host parent
unfolding host_overlaps_parent
overlaps_iff host parent = ground (arith, eq_iff host parent)
