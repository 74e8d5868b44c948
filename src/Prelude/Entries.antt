-- ===== src/Prelude/Entries.antt =====
-- Go's maps. A map is the list of its entries in the order of one iteration; the keys are distinct.
use Prim.Native.String.{String}
use mathlib.Core.Path.{◌≡◌, refl, sym, ap, ◌∙◌, subst₂}
use mathlib.Core.Bool.{true}
use mathlib.Core.Logic.{◌≢◌, inl, inr}
use mathlib.Core.Option.{Option, none, some}
use mathlib.Core.List.{List, [], ◌∷◌, Permᴰ}
use native.Mathlib.Omega.{arith}
use text.Mathlib.Text.{◌==◌}
use text.Mathlib.TextEquality.{eq_iff}
use text.Mathlib.TextPositions.{eq_refl}
use home_stack.Prelude.Tests.{if◌then◌else◌, Bool-cases}
use home_stack.Prelude.Lists.{All, All-imp, any}

abbrev pub Map {ℓ} : Type ℓ → Type ℓ
Map V = List (String × V)

module _ {ℓ} {V : Type ℓ} where
  unfoldable pub lookup : String → Map V → Option V
  lookup key [] = none
  lookup key ((name, value) ∷ entries) = if name == key then some value else lookup key entries

  -- `m[key] = value`.
  unfoldable pub insert : String → V → Map V → Map V
  insert key value [] = (key, value) ∷ []
  insert key value ((name, old) ∷ entries) =
      let later = insert key value entries in
      if name == key then (key, value) ∷ entries else (name, old) ∷ later

  -- `delete(m, k)`.
  unfoldable pub erase : String → Map V → Map V
  erase k [] = []
  erase k ((j, v) ∷ m) = let rest = erase k m in if j == k then rest else (j, v) ∷ rest

  abbrev pub HasDistinctKeys : Map V → Type ℓ
  HasDistinctKeys [] = Unit
  HasDistinctKeys ((k, v) ∷ m) = (lookup k m ≡ none) × HasDistinctKeys m

  pub lookup-insert :
      (key asked : String) (value : V) (entries : Map V)
      → lookup asked (insert key value entries)
        ≡ (if key == asked then some value else lookup asked entries)
  unfolding lookup insert
  lookup-insert key asked value [] = refl
  lookup-insert key asked value ((name, old) ∷ entries) =
      let later = lookup-insert key asked value entries in
      ground (arith, later, eq_iff name asked, eq_iff name key, eq_iff key asked)

  pub lookup-erase :
      (k j : String) (m : Map V) → lookup j (erase k m) ≡ (if k == j then none else lookup j m)
  unfolding lookup erase
  lookup-erase k j [] = ground arith
  lookup-erase k j ((i, v) ∷ m) =
      ground (arith, lookup-erase k j m, eq_iff i k, eq_iff i j, eq_iff k j)

  pub insert-HasDistinctKeys :
      (k : String) (v : V) (m : Map V) → HasDistinctKeys m → HasDistinctKeys (insert k v m)
  unfolding lookup insert
  insert-HasDistinctKeys k v [] h = (refl, tt)
  insert-HasDistinctKeys k v ((i, w) ∷ m) h =
      ground (arith, eq_iff i k, eq_iff k i, lookup-insert k i v m, insert-HasDistinctKeys k v m)

-- The order of iteration changes neither which keys there are nor what they are bound to.
module _ {ℓ} {V : Type ℓ} where
  abbrev SameBindings : Map V → Map V → Type ℓ
  SameBindings m n = (k : String) → lookup k m ≡ lookup k n

  swap-lookup :
      (x y : String × V) (m : Map V)
      → HasDistinctKeys (x ∷ y ∷ m)
      → HasDistinctKeys (y ∷ x ∷ m) × SameBindings (x ∷ y ∷ m) (y ∷ x ∷ m)
  unfolding lookup
  swap-lookup (i, v) (j, w) m d = (
    ground (arith, eq_iff i j, eq_iff j i),
    λ k. ground (arith, eq_iff i k, eq_iff j k, eq_iff j i),
  )

  pub perm-lookup :
      {m n : Map V} → Permᴰ m n → HasDistinctKeys m → HasDistinctKeys n × SameBindings m n
  unfolding lookup
  perm-lookup Permᴰ.nil d = (tt, λ k. refl)
  perm-lookup (Permᴰ.cons {a = x} {b = y} {l₁ = m} {l₂ = n} e p) (fresh, d) =
      let (d', same) = perm-lookup p d in rw (← e) ((sym (same x.0) ∙ fresh, d'), λ k. rw (same k))
  perm-lookup (Permᴰ.swap {a = x} {b = y} {a' = y'} {b' = x'} {l = m} e f) d =
      subst₂ (λ x'' y''. HasDistinctKeys (y'' ∷ x'' ∷ m) × SameBindings (x ∷ y ∷ m) (y'' ∷ x'' ∷ m))
        e f (swap-lookup x y m d)
  perm-lookup (Permᴰ.trans p q) d =
      let (d', same) = perm-lookup p d in
      let (d'', same') = perm-lookup q d' in (d'', λ k. same k ∙ same' k)

-- `for k := range m`.
abbrev pub keys {ℓ} : {V : Type ℓ} → Map V → List String
keys [] = []
keys ((k, v) ∷ m) = k ∷ keys m

pub perm-keys {ℓ} : {V : Type ℓ} {m n : Map V} → Permᴰ m n → Permᴰ (keys m) (keys n)
perm-keys Permᴰ.nil = Permᴰ.nil
perm-keys (Permᴰ.cons e p) = Permᴰ.cons (ap (λ b. b.0) e) (perm-keys p)
perm-keys (Permᴰ.swap e f) = Permᴰ.swap (ap (λ b. b.0) e) (ap (λ b. b.0) f)
perm-keys (Permᴰ.trans p q) = Permᴰ.trans (perm-keys p) (perm-keys q)

-- What holds of every entry holds of the one that a lookup finds.
pub All-lookup {ℓ κ} :
    {V : Type ℓ} (P : String × V → Type κ) (m : Map V) (k : String) (v : V)
    → All P m
    → lookup k m ≡ some v
    → P (k, v)
unfolding lookup
All-lookup P [] k v h e = absurd (cc)
All-lookup P ((j, w) ∷ m) k v (p, h) e = elim (Bool-cases (j == k)) [
  | inl same ↦
      let found : w ≡ v = ground arith in subst₂ (λ x y. P (x, y)) ((eq_iff j k).0 same) found p
  | inr other ↦ All-lookup P m k v h (rw other at e)
]

-- No entry has the key.
pub All-ne_of_lookup {ℓ} :
    {V : Type ℓ} (k : String) (m : Map V) → lookup k m ≡ none → All (λ e. k ≢ e.0) m
unfolding lookup
All-ne_of_lookup k [] h = tt
All-ne_of_lookup k ((j, v) ∷ m) h = elim (Bool-cases (j == k)) [
  | inl same ↦ absurd (cc (rw same at h))
  | inr other ↦ ((λ e. cc ((eq_iff j k).1 (sym e), other)), All-ne_of_lookup k m (rw other at h))
]

-- With distinct keys, each entry is what a lookup of its key finds.
pub All-lookup_self {ℓ} :
    {V : Type ℓ} (m : Map V) → HasDistinctKeys m → All (λ e. lookup e.0 m ≡ some e.1) m
unfolding lookup
All-lookup_self [] h = tt
All-lookup_self ((k, v) ∷ m) (fresh, d) =
    (rw eq_refl, All-imp _ (λ e found. further e found) m (All-lookup_self m d))
  where
    further : (e : String × _) → lookup e.0 m ≡ some e.1 → lookup e.0 ((k, v) ∷ m) ≡ some e.1
    further e found = elim (Bool-cases (k == e.0)) [
      | inl same ↦ absurd (cc (rw ((eq_iff k e.0).0 same) at fresh, found))
      | inr other ↦ rw other found
    ]

pub lookup_of_any-keys {ℓ} :
    {V : Type ℓ} (k : String) (m : Map V)
    → any (λ j. j == k) (keys m) ≡ true
    → (v : V) × (lookup k m ≡ some v)
unfolding lookup
lookup_of_any-keys k [] h = absurd (cc h)
lookup_of_any-keys k ((j, v) ∷ m) h = elim (Bool-cases (j == k)) [
  | inl same ↦ (v, rw same)
  | inr other ↦ let (w, found) = lookup_of_any-keys k m (rw other at h) in (w, rw other found)
]

pub any-keys_of_lookup {ℓ} :
    {V : Type ℓ} (k : String) (m : Map V) {v : V}
    → lookup k m ≡ some v
    → any (λ j. j == k) (keys m) ≡ true
unfolding lookup
any-keys_of_lookup k [] h = absurd (cc h)
any-keys_of_lookup k ((j, v) ∷ m) h = elim (Bool-cases (j == k)) [
  | inl same ↦ rw same
  | inr other ↦ rw other (any-keys_of_lookup k m (rw other at h))
]

pub lookup-insert_self {ℓ} :
    {V : Type ℓ} (k : String) (v : V) (m : Map V) → lookup k (insert k v m) ≡ some v
lookup-insert_self k v m = lookup-insert k k v m ∙ rw eq_refl

pub lookup-insert_ne {ℓ} :
    {V : Type ℓ} (k j : String) (v : V) (m : Map V) → k ≢ j → lookup j (insert k v m) ≡ lookup j m
lookup-insert_ne k j v m h = elim (Bool-cases (k == j)) [
  | inl same ↦ absurd (h ((eq_iff k j).0 same))
  | inr other ↦ lookup-insert k j v m ∙ rw other
]
