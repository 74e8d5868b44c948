-- ===== src/Prelude/Paths/Shorter.antt =====
-- `filepath.Dir` shortens every path but the shortest, so a loop that goes up the directories ends.
use home_stack.Prelude.{
  ℕ, suc, ◌+◌, ◌≤◌, arith, ◌≡◌, refl, Bool, true, false, ◌||◌, List, [], ◌∷◌, ◌++◌, String, ◌==◌,
  ◌<>◌, has_prefix, split, join, onto_head, eqb, codes, codes-append, length, length-append,
  slash_of_code, if◌then◌else◌, Bool-cases, inl, inr, Char, code, eq_iff, ◌⊎◌,
}
use mathlib.Core.List.{reverse, reverse-cons}
use home_stack.Prelude.Paths.{back_up, resolve, clean, up_to_slash, dir}

abbrev pub size : String → ℕ
size s = length (codes s)

-- The length of a path's elements, each with its slash.
weight : List String → ℕ
weight [] = 0
weight (part ∷ parts) = suc (size part) + weight parts

-- The same, of the elements that are not empty.
load : List String → ℕ
load [] = 0
load (part ∷ parts) = (if part == "" then 0 else suc (size part)) + load parts

weight-append : (xs ys : List String) → weight (xs ++ ys) ≡ weight xs + weight ys
unfolding weight
weight-append [] ys = omega arith
weight-append (x ∷ xs) ys = omega (arith, weight-append xs ys)

weight-reverse : (xs : List String) → weight (reverse xs) ≡ weight xs
unfolding weight
weight-reverse [] = refl
weight-reverse (x ∷ xs) =
    rw (reverse-cons x xs) (omega (arith, weight-append (reverse xs) (x ∷ []), weight-reverse xs))

back_up-weight :
    (rooted : Bool) (stack : List String) → weight (back_up rooted stack) ≤ weight stack + 3
unfolding weight
back_up-weight true [] = omega arith
back_up-weight false [] = omega arith
back_up-weight rooted (top ∷ stack) = elim (Bool-cases (top == "..")) [
  | inl up ↦ simp up (omega arith)
  | inr other ↦ simp other (omega arith)
]

-- The stack after one element.
abbrev after : Bool → List String → String → List String
after rooted stack part =
    if part == "" || part == "."
    then stack
    else if part == ".."
    then back_up rooted stack
    else part ∷ stack

after-weight :
    (rooted : Bool) (stack : List String) (part : String)
    → weight (after rooted stack part) ≤ weight stack + (if part == "" then 0 else suc (size part))
unfolding weight
after-weight rooted stack part = elim (Bool-cases (part == "")) [
  | inl blank ↦ simp blank (omega arith)
  | inr filled ↦ elim (Bool-cases (part == ".")) [
    | inl dot ↦ simp (filled, dot) (omega arith)
    | inr other ↦ elim (Bool-cases (part == "..")) [
      | inl up ↦
          let two : size part ≡ 2 = rw ((eq_iff part "..").0 up) refl in
          simp (filled, other, up, two) (back_up-weight rooted stack)
      | inr named ↦ simp (filled, other, named) (omega arith)
    ]
  ]
]

resolve-weight :
    (rooted : Bool) (stack parts : List String)
    → weight (resolve rooted stack parts) ≤ weight stack + load parts
unfolding resolve load
resolve-weight rooted stack [] = omega (arith, weight-reverse stack)
resolve-weight rooted stack (part ∷ parts) =
    omega
      (arith, resolve-weight rooted (after rooted stack part) parts, after-weight rooted stack part)

size-append : (s t : String) → size (s <> t) ≡ size s + size t
size-append s t = rw (codes-append s t) (length-append (codes s) (codes t))

join-size :
    (part : String) (parts : List String)
    → suc (size (join (part ∷ parts) "/")) ≡ weight (part ∷ parts)
unfolding join weight
join-size part [] = omega arith
join-size part (next ∷ parts) = omega (
  arith,
  size-append part ("/" <> join (next ∷ parts) "/"),
  size-append "/" (join (next ∷ parts) "/"),
  join-size next parts,
)

-- The load with the first element counted even where it is empty.
heavy : List String → ℕ
heavy [] = 1
heavy (part ∷ parts) = suc (size part) + load parts

load-heavy : (parts : List String) → load parts ≤ heavy parts
unfolding load heavy
load-heavy [] = omega arith
load-heavy (part ∷ parts) = elim (Bool-cases (part == "")) [
  | inl blank ↦ simp blank (omega arith)
  | inr filled ↦ simp filled (omega arith)
]

onto_head-heavy : (c : Char) (parts : List String) → heavy (onto_head c parts) ≡ suc (heavy parts)
unfolding heavy load
onto_head-heavy c [] = omega arith
onto_head-heavy c (part ∷ parts) = omega arith

split-heavy :
    (c : Char) (s : String) → heavy (split (String.◌∷◌ c s) b'/') ≤ suc (heavy (split s b'/'))
unfolding split heavy
split-heavy c s = elim (Bool-cases (eqb (code c) b'/')) [
  | inl slash ↦ simp slash (omega (arith, load-heavy (split s b'/')))
  | inr other ↦ simp other (omega (arith, onto_head-heavy c (split s b'/')))
]

up_to_slash-heavy :
    (s : String)
    → (up_to_slash s ≡ "") ⊎ (heavy (split (up_to_slash s) b'/') ≤ size (up_to_slash s))
unfolding up_to_slash heavy split load
up_to_slash-heavy String.[] = inl refl
up_to_slash-heavy (String.◌∷◌ c s) = elim (Bool-cases (up_to_slash s == "")) [
  | inl ends ↦ elim (Bool-cases (eqb (code c) b'/')) [
    | inl slash ↦ simp (ends, slash) (inr (omega arith))
    | inr other ↦ simp (ends, other) (inl refl)
  ]
  | inr more ↦ elim (up_to_slash-heavy s) [
    | inl empty ↦ absurd (cc (rw empty at more))
    | inr light ↦ simp more (inr (omega (arith, light, split-heavy c (up_to_slash s))))
  ]
]

up_to_slash-size : (s : String) → size (up_to_slash s) ≤ size s
unfolding up_to_slash
up_to_slash-size String.[] = omega arith
up_to_slash-size (String.◌∷◌ c s) = elim (Bool-cases (up_to_slash s == "")) [
  | inl ends ↦ elim (Bool-cases (eqb (code c) b'/')) [
    | inl slash ↦ simp (ends, slash) (omega arith)
    | inr other ↦ simp (ends, other) (omega arith)
  ]
  | inr more ↦ simp more (omega (arith, up_to_slash-size s))
]

rooted-load :
    (path : String)
    → has_prefix path "/" ≡ true
    → suc (load (split path b'/')) ≤ heavy (split path b'/')
unfolding has_prefix split load heavy
rooted-load String.[] rooted = absurd (cc rooted)
rooted-load (String.◌∷◌ c s) rooted = elim (Bool-cases (eqb (code c) b'/')) [
  | inl slash ↦ simp slash (omega arith)
  | inr other ↦ absurd (cc (simp other at rooted))
]

-- The text of the elements that are kept.
join-kept :
    (parts : List String) → (join parts "/" ≡ "") ⊎ (suc (size (join parts "/")) ≤ weight parts)
unfolding join
join-kept [] = inl refl
join-kept (part ∷ parts) = inr (omega (arith, join-size part parts))

clean-size :
    (path : String)
    → heavy (split path b'/') ≤ size path
    → (size (clean path) ≤ 1) ⊎ (suc (size (clean path)) ≤ size path)
unfolding clean weight
clean-size path light = elim (Bool-cases (has_prefix path "/")) [
  | inl rooted ↦
      let kept = resolve true [] (split path b'/') in
      elim (join-kept kept) [
        | inl nothing ↦ simp (rooted, nothing) (inl (omega arith))
        | inr long ↦ simp rooted (
            inr (
              omega (
                arith,
                light,
                long,
                resolve-weight true [] (split path b'/'),
                rooted-load path rooted,
                size-append "/" (join kept "/"),
              )))
      ]
  | inr relative ↦
      let kept = resolve false [] (split path b'/') in
      elim (Bool-cases (join kept "/" == "")) [
        | inl nothing ↦ simp (relative, nothing) (inl (omega arith))
        | inr something ↦ elim (join-kept kept) [
          | inl empty ↦ absurd (cc (rw empty at something))
          | inr long ↦
              simp (relative, something)
                (inr (
                  omega (
                    arith,
                    light,
                    long,
                    resolve-weight false [] (split path b'/'),
                    load-heavy (split path b'/'),
                  )))
        ]
      ]
]

-- The parent of a path is shorter, or has one character at most.
pub dir-size : (path : String) → (size (dir path) ≤ 1) ⊎ (suc (size (dir path)) ≤ size path)
unfolding dir clean
dir-size path = elim (up_to_slash-heavy path) [
  | inl none_left ↦ rw none_left (inl (omega arith))
  | inr light ↦ elim (clean-size (up_to_slash path) light) [
    | inl short ↦ inl short
    | inr shorter ↦ inr (omega (arith, shorter, up_to_slash-size path))
  ]
]

short_up : (path : String) → size path ≤ 1 → (up_to_slash path ≡ "") ⊎ (up_to_slash path ≡ "/")
unfolding up_to_slash
short_up String.[] short = inl refl
short_up (String.◌∷◌ c String.[]) short = elim (Bool-cases (eqb (code c) b'/')) [
  | inl slash ↦ simp slash (inr (slash_of_code c slash))
  | inr other ↦ simp other (inl refl)
]
short_up (String.◌∷◌ c (String.◌∷◌ d s)) short = absurd (omega arith)

-- The parent of a text of one character is its own parent.
pub dir-short : (path : String) → size path ≤ 1 → dir (dir path) ≡ dir path
unfolding dir clean up_to_slash
dir-short path short = elim (short_up path short) [
  | inl none_left ↦ rw none_left refl
  | inr slash ↦ rw slash refl
]
