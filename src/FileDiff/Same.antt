-- ===== src/FileDiff/Same.antt =====
-- registry.go, `diffCatalog`: when the preview of the catalog shows no change.
use home_stack.Prelude.{
  true, false, ◌≡◌, refl, sym, ap, ◌∙◌, ◌↔◌, List, [], ◌∷◌, Option, some, String, ◌==◌, eq_iff,
  eq_refl, Map, lookup, is_some, length, ltb, ◌||◌, Bool-cases, Option-cases, inl, inr, arith,
}
use home_stack.Plists.{has_changes}
use home_stack.Edits.{holds}
use home_stack.Registry.{Service}
use home_stack.FileDiff.{lacking, diff_catalog}

-- The same keys, bound to whatever they are.
abbrev pub SameKeys {ℓ} : {V : Type ℓ} → Map V → Map V → Type 0
SameKeys m n = (k : String) → is_some (lookup k m) ≡ is_some (lookup k n)

abbrev Covers {ℓ} : {V : Type ℓ} → Map V → Map V → Type 0
Covers n m = (k : String) → is_some (lookup k m) ≡ true → is_some (lookup k n) ≡ true

lookup_tail {ℓ} :
    {V : Type ℓ} (k j : String) (v : V) (m : Map V)
    → is_some (lookup k m) ≡ true
    → is_some (lookup k ((j, v) ∷ m)) ≡ true
unfolding lookup
lookup_tail k j v m h = ground (arith, h)

lookup_head {ℓ} :
    {V : Type ℓ} (k : String) (v : V) (m : Map V) → is_some (lookup k ((k, v) ∷ m)) ≡ true
unfolding lookup
lookup_head k v m = rw eq_refl refl

lacking-none : (m n : Map Service) → Covers n m → lacking m n ≡ []
unfolding lacking
lacking-none [] n covers = refl
lacking-none ((k, svc) ∷ m) n covers = elim (Option-cases (lookup k n)) [
  | inl gone ↦
      let here : is_some (lookup k n) ≡ true = covers k (lookup_head k svc m) in
      absurd (cc (rw gone at here))
  | inr (found, present) ↦
      rw (present, lacking) (lacking-none m n (λ j h. covers j (lookup_tail j k svc m h)))
]

lacking-Covers : (m n : Map Service) → lacking m n ≡ [] → Covers n m
unfolding lacking lookup
lacking-Covers [] n h k present = absurd (cc present)
lacking-Covers ((j, svc) ∷ m) n h k present = elim (Option-cases (lookup j n)) [
  | inl gone ↦ absurd (cc (rw (gone, lacking) at h))
  | inr (found, here) ↦ elim (Bool-cases (j == k)) [
    | inl same ↦ ap (λ x. is_some (lookup x n)) (sym ((eq_iff j k).0 same)) ∙ ap is_some here
    | inr other ↦ lacking-Covers m n (rw (here, lacking) at h) k (rw other at present)
  ]
]

counts_none :
    (xs ys : List String)
    → ((ltb 0 (length xs) || ltb 0 (length ys) || false) ≡ false) ↔ ((xs ≡ []) × (ys ≡ []))
counts_none [] [] = (λ _. (refl, refl), λ _. refl)
counts_none [] (y ∷ ys) = (λ h. ground arith, λ (_, e). absurd (cc e))
counts_none (x ∷ xs) ys = (λ h. ground arith, λ (e, _). absurd (cc e))

Covers-SameKeys : (m n : Map Service) → Covers n m × Covers m n → SameKeys m n
Covers-SameKeys m n (there, back) k = ground (arith, there k, back k)

-- The preview of a catalog that is on the disk and parses shows no change exactly when it has the
-- services of the catalog desired, whatever it says of them.
pub diff_catalog-has_changes :
    (unmarshal : String → Option (Map Service)) (text : String) (found desired : Map Service)
    → unmarshal text ≡ some found
    → (has_changes (diff_catalog unmarshal (holds text) desired) ≡ false) ↔ SameKeys found desired
unfolding diff_catalog has_changes
diff_catalog-has_changes unmarshal text found desired read =
    let (none_new, counted) = counts_none (lacking desired found) (lacking found desired) in
    rw (read, diff_catalog)
      (
        λ h.
            let (a, b) = none_new h in
            Covers-SameKeys found desired
              (lacking-Covers found desired b, lacking-Covers desired found a),
        λ same. counted (
          lacking-none desired found (λ k h. same k ∙ h),
          lacking-none found desired (λ k h. sym (same k) ∙ h),
        ),
      )
