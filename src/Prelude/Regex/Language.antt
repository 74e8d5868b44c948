-- ===== src/Prelude/Regex/Language.antt =====
-- The language of a pattern, and that the matcher decides it.
use home_stack.Prelude.{
  ℕ, Bool, true, false, ◌≡◌, refl, ◌↔◌, List, [], ◌∷◌, ◌++◌, arith, String, codes, All, All-append,
  Bool-cases, inl, inr, sym, ap, ◌∙◌, if◌then◌else◌,
}
use home_stack.Prelude.Regex.{
  Regex, nothing, empty, class, cat, alt, star, nullable, deriv, accepts, match_string,
}

pub data Matches : Regex → List ℕ → Type 0 where
  nil : {s : List ℕ} → s ≡ [] → Matches empty s
  one : {p : ℕ → Bool} {s : List ℕ} (c : ℕ) → p c ≡ true → s ≡ c ∷ [] → Matches (class p) s
  both :
      {r q : Regex} {s : List ℕ} (t u : List ℕ)
      → s ≡ t ++ u
      → Matches r t
      → Matches q u
      → Matches (cat r q) s
  left : {r q : Regex} {s : List ℕ} → Matches r s → Matches (alt r q) s
  right : {r q : Regex} {s : List ℕ} → Matches q s → Matches (alt r q) s
  stop : {r : Regex} {s : List ℕ} → s ≡ [] → Matches (star r) s
  again :
      {r : Regex} {s : List ℕ} (c : ℕ) (t u : List ℕ)
      → s ≡ c ∷ (t ++ u)
      → Matches r (c ∷ t)
      → Matches (star r) u
      → Matches (star r) s

nullable-Matches : (r : Regex) → nullable r ≡ true → Matches r []
unfolding nullable
nullable-Matches nothing h = ground arith
nullable-Matches empty h = nil refl
nullable-Matches (class p) h = ground arith
nullable-Matches (cat r q) h =
    both [] [] refl (nullable-Matches r (ground arith)) (nullable-Matches q (ground arith))
nullable-Matches (alt r q) h = elim (Bool-cases (nullable r)) [
  | inl here ↦ left (nullable-Matches r here)
  | inr there ↦ right (nullable-Matches q (ground arith))
]
nullable-Matches (star r) h = stop refl

Matches-nullable : {r : Regex} {s : List ℕ} → Matches r s → s ≡ [] → nullable r ≡ true
unfolding nullable
Matches-nullable (nil e) h = refl
Matches-nullable (one c p e) h = ground arith
Matches-nullable (both [] u e m n) h =
    ground (arith, Matches-nullable m refl, Matches-nullable n (ground arith))
Matches-nullable (both (c ∷ t) u e m n) h = cc
Matches-nullable (left m) h = ground (arith, Matches-nullable m h)
Matches-nullable (right m) h = ground (arith, Matches-nullable m h)
Matches-nullable (stop e) h = refl
Matches-nullable (again c t u e m n) h = refl

class_sound :
    (p : ℕ → Bool) (c : ℕ) (b : Bool) {s : List ℕ}
    → p c ≡ b
    → Matches (if b then empty else nothing) s
    → Matches (class p) (c ∷ s)
class_sound p c true h (nil e) = one c h (ap (λ x. c ∷ x) e)
class_sound p c false h m = elim m [ ]

module _ (c : ℕ) (r q : Regex) (down_r : (s : List ℕ) → Matches (deriv c r) s → Matches r (c ∷ s))
    (down_q : (s : List ℕ) → Matches (deriv c q) s → Matches q (c ∷ s)) where
  front_sound : {s : List ℕ} → Matches (cat (deriv c r) q) s → Matches (cat r q) (c ∷ s)
  front_sound (both t u e m n) = both (c ∷ t) u (ap (λ x. c ∷ x) e) (down_r t m) n

  cat_sound :
      (b : Bool) {s : List ℕ}
      → nullable r ≡ b
      → Matches (if b then alt (cat (deriv c r) q) (deriv c q) else cat (deriv c r) q) s
      → Matches (cat r q) (c ∷ s)
  cat_sound true h (left m) = front_sound m
  cat_sound true {s} h (right m) = both [] (c ∷ s) refl (nullable-Matches r h) (down_q s m)
  cat_sound false h m = front_sound m

deriv_sound : (c : ℕ) (r : Regex) {s : List ℕ} → Matches (deriv c r) s → Matches r (c ∷ s)
unfolding deriv
deriv_sound c nothing m = elim m [ ]
deriv_sound c empty m = elim m [ ]
deriv_sound c (class p) m = class_sound p c (p c) refl m
deriv_sound c (cat r q) m =
    cat_sound c r q (λ s. deriv_sound c r {s = s}) (λ s. deriv_sound c q {s = s}) (nullable r) refl
      m
deriv_sound c (alt r q) (left m) = left (deriv_sound c r m)
deriv_sound c (alt r q) (right m) = right (deriv_sound c q m)
deriv_sound c (star r) (both t u e m n) = again c t u (ap (λ x. c ∷ x) e) (deriv_sound c r m) n

class_complete :
    (p : ℕ → Bool) (c : ℕ) {s : List ℕ}
    → p c ≡ true
    → s ≡ []
    → Matches (if p c then empty else nothing) s
class_complete p c h e = rw h (nil e)

module _ (c : ℕ) (r q : Regex) {s : List ℕ} where
  cat_front :
      (b : Bool)
      → Matches (cat (deriv c r) q) s
      → Matches (if b then alt (cat (deriv c r) q) (deriv c q) else cat (deriv c r) q) s
  cat_front true m = left m
  cat_front false m = m

  cat_back : nullable r ≡ true → Matches (deriv c q) s → Matches (deriv c (cat r q)) s
  unfolding deriv
  cat_back h m = rw h (right m)

deriv_complete :
    {r : Regex} {w : List ℕ} (c : ℕ) (s : List ℕ) → Matches r w → w ≡ c ∷ s → Matches (deriv c r) s
unfolding deriv
deriv_complete c s (nil e) h = absurd (cc)
deriv_complete c s (one {p = t} d holds e) h =
    let same : d ≡ c = cc in class_complete t c (rw same at holds) (cc)
deriv_complete c s (both {r = r} {q = q} [] u e m n) h =
    cat_back c r q (Matches-nullable m refl) (deriv_complete c s n (sym e ∙ h))
deriv_complete c s (both {r = r} {q = q} (d ∷ t) u e m n) h =
    let same : d ≡ c = cc in
    let rest : s ≡ t ++ u = cc in
    cat_front c r q (nullable r) (both t u rest (deriv_complete c t m (ap (λ x. x ∷ t) same)) n)
deriv_complete c s (left m) h = left (deriv_complete c s m h)
deriv_complete c s (right m) h = right (deriv_complete c s m h)
deriv_complete c s (stop e) h = absurd (cc)
deriv_complete c s (again d t u e m n) h =
    both t u (ground arith) (deriv_complete c t m (ground arith)) n

accepts_sound : (r : Regex) (s : List ℕ) → accepts r s ≡ true → Matches r s
unfolding accepts
accepts_sound r [] h = nullable-Matches r h
accepts_sound r (c ∷ s) h = deriv_sound c r (accepts_sound (deriv c r) s h)

accepts_complete : {r : Regex} (s : List ℕ) → Matches r s → accepts r s ≡ true
unfolding accepts
accepts_complete [] m = Matches-nullable m refl
accepts_complete (c ∷ s) m = accepts_complete s (deriv_complete c s m refl)

-- The matcher accepts exactly the language of the pattern.
pub match_string_iff : (r : Regex) (s : String) → (match_string r s ≡ true) ↔ Matches r (codes s)
unfolding match_string
match_string_iff r s = (accepts_sound r (codes s), accepts_complete (codes s))

-- A test that every class of a pattern implies holds of each character of a text in its language.
abbrev pub Within : (ℕ → Bool) → Regex → Type 0
Within t nothing = Unit
Within t empty = Unit
Within t (class p) = (c : ℕ) → p c ≡ true → t c ≡ true
Within t (cat r q) = Within t r × Within t q
Within t (alt r q) = Within t r × Within t q
Within t (star r) = Within t r

pub Matches-Within :
    (t : ℕ → Bool) {r : Regex} {s : List ℕ} → Within t r → Matches r s → All (λ c. t c ≡ true) s
Matches-Within t w (nil e) = rw e tt
Matches-Within t w (one c p e) = rw e (w c p, tt)
Matches-Within t w (both u v e m n) =
    rw e (All-append _ u v (Matches-Within t w.0 m) (Matches-Within t w.1 n))
Matches-Within t w (left m) = Matches-Within t w.0 m
Matches-Within t w (right m) = Matches-Within t w.1 m
Matches-Within t w (stop e) = rw e tt
Matches-Within t w (again c u v e m n) =
    rw e (All-append _ (c ∷ u) v (Matches-Within t w m) (Matches-Within t w n))
