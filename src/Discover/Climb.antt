-- ===== src/Discover/Climb.antt =====
-- main.go, `bundleFromPath`: its loop ends, and what it finds.
use home_stack.Prelude.{
  ℕ, zero, suc, ◌+◌, ◌≤◌, ◌<◌, arith, Bool, true, false, ◌≡◌, ◌⊎◌, inl, inr, refl, Option, none,
  some, String, ◌==◌, eq_iff, eq_refl, Bool-cases,
}
use home_stack.Prelude.Paths.{dir, base}
use home_stack.Prelude.Paths.Shorter.{size, dir-size, dir-short}
use home_stack.Discover.{is_admin_dir, climb, start, bundle_from_path}

-- The admin directory of a bundle.
abbrev pub IsAdminDir : String → Type 0
IsAdminDir path = (base path ≡ "admin") × (base (dir path) ≡ "home-stack")

-- The directory so many levels up.
unfoldable pub up : ℕ → String → String
up zero path = path
up (suc k) path = up k (dir path)

-- What is found from a path: the directory above the nearest admin directory, if there is one.
abbrev pub IsFound : String → Option String → Type 0
IsFound path (some bundle) =
    (k : ℕ) × IsAdminDir (up k path)
    × (bundle ≡ dir (up k path))
    × ((i : ℕ) → i < k → ¬ IsAdminDir (up i path))
IsFound path none = (k : ℕ) → ¬ IsAdminDir (up k path)

of_IsAdminDir : (path : String) → (is_admin_dir path ≡ true) → IsAdminDir path
of_IsAdminDir path h =
    ground (arith, eq_iff (base path) "admin", eq_iff (base (dir path)) "home-stack")

not-IsAdminDir : (path : String) → is_admin_dir path ≡ false → ¬ IsAdminDir path
not-IsAdminDir path h (named, inside) = absurd (cc (rw (named, inside) at h))

up-fixed : (k : ℕ) (path : String) → dir path ≡ path → up k path ≡ path
unfolding up
up-fixed zero path fixed = refl
up-fixed (suc k) path fixed = rw fixed (up-fixed k path fixed)

-- With so much fuel, or more, the loop ends in one result, and the right one.
abbrev Ends : ℕ → String → Type 0
Ends n path = (r : Option String) × ((m : ℕ) → n ≤ m → climb m path ≡ some r) × IsFound path r

further_lem :
    (path : String)
    → ¬ IsAdminDir path
    → (k : ℕ) → ((i : ℕ) → i < k → ¬ IsAdminDir (up i (dir path)))
    → (i : ℕ) → i < suc k
    → ¬ IsAdminDir (up i path)
unfolding up
further_lem path other k first zero less = other
further_lem path other k first (suc i) less = first i (omega arith)

nowhere_lem :
    (path : String)
    → ¬ IsAdminDir path
    → ((k : ℕ) → ¬ IsAdminDir (up k (dir path)))
    → (k : ℕ) → ¬ IsAdminDir (up k path)
unfolding up
nowhere_lem path other nowhere zero = other
nowhere_lem path other nowhere (suc k) = nowhere k

further-IsFound :
    (path : String) (r : Option String) → ¬ IsAdminDir path → IsFound (dir path) r → IsFound path r
unfolding up
further-IsFound path none other nowhere = nowhere_lem path other nowhere
further-IsFound path (some b) other (k, admin, above, first) =
    (suc k, admin, above, further_lem path other k first)

-- One round of the loop that gives a result with enough fuel left.
round :
    (n : ℕ) (path : String) (r : Option String)
    → ((m : ℕ) → n ≤ m → climb (suc m) path ≡ some r)
    → (m : ℕ) → suc n ≤ m
    → climb m path ≡ some r
round n path r next zero enough = absurd (omega arith)
round n path r next (suc m) enough = next m (omega arith)

step-Ends : (n : ℕ) (path : String) → (dir path ≡ path) ⊎ Ends n (dir path) → Ends (suc n) path
unfolding climb up
step-Ends n path rest = elim (Bool-cases (is_admin_dir path)) [
  | inl admin ↦ (
    some (dir path),
    round n path (some (dir path)) (λ m enough. simp admin refl),
    (0, of_IsAdminDir path admin, refl, λ i less. absurd (omega arith)),
  )
  | inr other ↦ elim (Bool-cases (dir path == path)) [
    | inl same ↦ (
      none,
      round n path none (λ m enough. simp (other, same) refl),
      λ k.
          let fixed = up-fixed k path ((eq_iff (dir path) path).0 same) in
          rw fixed (not-IsAdminDir path other),
    )
    | inr moved ↦ elim rest [
      | inl fixed ↦ absurd (cc (rw (fixed, eq_refl) at moved))
      | inr (r, ends, found) ↦ (
        r,
        round n path r (λ m enough. simp (other, moved) (ends m enough)),
        further-IsFound path r (not-IsAdminDir path other) found,
      )
    ]
  ]
]

short-Ends : (n : ℕ) (path : String) → size path ≤ 1 → Ends (suc (suc n)) path
short-Ends n path short =
    step-Ends (suc n) path (inr (step-Ends n (dir path) (inl (dir-short path short))))

climb-Ends : (n : ℕ) (path : String) → size path + 3 ≤ n → Ends n path
climb-Ends zero path enough = absurd (omega arith)
climb-Ends (suc zero) path enough = absurd (omega arith)
climb-Ends (suc (suc zero)) path enough = absurd (omega arith)
climb-Ends (suc (suc (suc n))) path enough = elim (dir-size path) [
  | inl short ↦ step-Ends (suc (suc n)) path (inr (short-Ends n (dir path) short))
  | inr shorter ↦
      step-Ends (suc (suc n)) path (inr (climb-Ends (suc (suc n)) (dir path) (omega arith)))
]

-- The search for the bundle ends on every path, with one result whatever the fuel is from the length of
-- the start and three more: the directory above the nearest directory, at the start or above it, that
-- is called "admin" and stands in one called "home-stack", and no result where there is none.
pub bundle_from_path_lem :
    (is_file : String → Bool) (path : String) (n : ℕ)
    → size (start is_file path) + 3 ≤ n
    → (climb n (start is_file path) ≡ some (bundle_from_path is_file path))
      × IsFound (start is_file path) (bundle_from_path is_file path)
unfolding bundle_from_path
bundle_from_path_lem is_file path n enough =
    let from = start is_file path in
    let (r, ends, found) = climb-Ends (size from + 3) from (omega arith) in
    let here = ends (size from + 3) (omega arith) in
    rw (here, bundle_from_path) (ends n enough, found)
