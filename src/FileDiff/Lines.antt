-- ===== src/FileDiff/Lines.antt =====
-- registry.go, `diffFiles`: which differences the preview of a file shows.
use home_stack.Prelude.{
  ℕ, zero, suc, ◌+◌, Bool, true, false, ◌||◌, not, ◌≡◌, ◌↔◌, refl, sym, ◌∙◌, List, [], ◌∷◌, ◌++◌,
  String, ◌==◌, ◌<>◌, eq_iff, split, has_prefix, cut_prefix-append, if◌then◌else◌, has_prefix-other,
  ◌<◌, arith, Bool-cases, inl, inr,
}
use home_stack.Validity.Tokens.{==-eq-false}
use home_stack.Plists.{has_changes, empty_section}
use home_stack.Edits.{holds}
use home_stack.FileDiff.{
  line_change, changed_lines, has_diff, compute_line_diff, count_additions, count_removals, changes,
  diff_files,
}

-- Line number `i` of a text, "" after the last.
abbrev pub line_at : ℕ → List String → String
line_at i [] = ""
line_at zero (line ∷ lines) = line
line_at (suc i) (line ∷ lines) = line_at i lines

-- The same line at every number, so only empty lines at the end may be more or fewer.
abbrev pub SameLines : List String → List String → Type 0
SameLines xs ys = (i : ℕ) → line_at i xs ≡ line_at i ys

blank_tail : (i : ℕ) → line_at i ("" ∷ []) ≡ ""
blank_tail zero = refl
blank_tail (suc i) = refl

SameLines-cons :
    (x y : String) (xs ys : List String) → x ≡ y → SameLines xs ys → SameLines (x ∷ xs) (y ∷ ys)
SameLines-cons x y xs ys same rest zero = same
SameLines-cons x y xs ys same rest (suc i) = rest i

cons_iff :
    (x y : String) (xs ys : List String) (b : Bool)
    → (b ≡ false) ↔ SameLines xs ys
    → (not (x == y) || b ≡ false) ↔ SameLines (x ∷ xs) (y ∷ ys)
cons_iff x y xs ys b later = elim (Bool-cases (x == y)) [
  | inr other ↦ simp other (λ h. cc, λ same. absurd ((==-eq-false x y).0 other (same zero)))
  | inl e ↦ simp e (
    λ h i. SameLines-cons x y xs ys ((eq_iff x y).0 e) (later.0 h) i,
    λ same. later.1 (λ i. same (suc i)),
  )
]

has_diff_iff : (xs ys : List String) → (has_diff xs ys ≡ false) ↔ SameLines xs ys
unfolding has_diff
has_diff_iff [] [] = (λ _ i. refl, λ _. refl)
has_diff_iff [] (y ∷ ys) =
    let (there, back) = cons_iff "" y [] ys (has_diff [] ys) (has_diff_iff [] ys) in
    (λ h i. sym (blank_tail i) ∙ there h i, λ same. back (λ i. blank_tail i ∙ same i))
has_diff_iff (x ∷ xs) [] =
    let (there, back) = cons_iff x "" xs [] (has_diff xs []) (has_diff_iff xs []) in
    (λ h i. there h i ∙ blank_tail i, λ same. back (λ i. same i ∙ sym (blank_tail i)))
has_diff_iff (x ∷ xs) (y ∷ ys) = cons_iff x y xs ys (has_diff xs ys) (has_diff_iff xs ys)

abbrev total : List String → ℕ
total lines = count_additions lines + count_removals lines

total-append : (xs ys : List String) → total (xs ++ ys) ≡ total xs + total ys
unfolding count_additions count_removals
total-append [] ys = omega arith
total-append (x ∷ xs) ys = ground (arith, total-append xs ys)

is_prefix : (p s : String) → has_prefix (p <> s) p ≡ true
unfolding has_prefix
is_prefix p s = rw (cut_prefix-append p s) refl

plus_counts : (s : String) → total (("+" <> s) ∷ []) ≡ 1
unfolding count_additions count_removals
plus_counts s = rw (is_prefix "+" s) refl

minus_counts : (s : String) → total (("-" <> s) ∷ []) ≡ 1
unfolding count_additions count_removals
minus_counts s =
    let minus : has_prefix ("-" <> s) "-" ≡ true = is_prefix "-" s in
    let plus : has_prefix ("-" <> s) "+" ≡ false = has_prefix-other "-" "+" s refl in
    rw (plus, minus) refl

added_line : String → List String
added_line new = if new == "" then [] else ("+" <> new) ∷ []

total-line_change : (old new : String) → (old == new) ≡ false → 0 < total (line_change old new)
unfolding added_line
total-line_change old new other = elim (Bool-cases (old == "")) [
  | inr full ↦
      let sum = total-append (("-" <> old) ∷ []) (added_line new) in
      rw (other, full) (omega (arith, sum, minus_counts old))
  | inl gone ↦ elim (Bool-cases (new == "")) [
    | inr full ↦ rw (other, gone, full) (omega (arith, plus_counts new))
    | inl void ↦
        let same : old ≡ new = (eq_iff old "").0 gone ∙ sym ((eq_iff new "").0 void) in
        absurd ((==-eq-false old new).0 other same)
  ]
]

-- What the lines of a difference count is not zero.
total-cons :
    (old new : String) (rest : List String) (b : Bool)
    → (b ≡ true → 0 < total rest)
    → not (old == new) || b ≡ true
    → 0 < total (line_change old new ++ rest)
total-cons old new rest b later h = elim (Bool-cases (old == new)) [
  | inl same ↦ rw same (later (rw same at h))
  | inr other ↦
      omega (arith, total-append (line_change old new) rest, total-line_change old new other)
]

total-changed_lines :
    (xs ys : List String) → has_diff xs ys ≡ true → 0 < total (changed_lines xs ys)
unfolding has_diff changed_lines
total-changed_lines [] [] h = absurd (cc h)
total-changed_lines [] (y ∷ ys) h = total-cons "" y _ _ (total-changed_lines [] ys) h
total-changed_lines (x ∷ xs) [] h = total-cons x "" _ _ (total-changed_lines xs []) h
total-changed_lines (x ∷ xs) (y ∷ ys) h = total-cons x y _ _ (total-changed_lines xs ys) h

changed_lines-same : (xs ys : List String) → has_diff xs ys ≡ false → changed_lines xs ys ≡ []
unfolding has_diff changed_lines
changed_lines-same [] [] h = refl
changed_lines-same [] (y ∷ ys) h = ground (arith, changed_lines-same [] ys)
changed_lines-same (x ∷ xs) [] h = ground (arith, changed_lines-same xs [])
changed_lines-same (x ∷ xs) (y ∷ ys) h = ground (arith, changed_lines-same xs ys)

SameLines-refl : (s t : String) → s ≡ t → SameLines (split s b'\n') (split t b'\n')
SameLines-refl s t e i = rw e refl

no_change : has_changes (record empty_section { details = "No changes" ∷ [] }) ≡ false
unfolding has_changes
no_change = refl

counted-HasChanges : (lines : List String) → 0 < total lines → has_changes (changes lines) ≡ true
unfolding has_changes
counted-HasChanges lines h = ground arith

no_line : has_changes (changes (" (no changes)" ∷ [])) ≡ false
unfolding has_changes count_additions count_removals has_prefix
no_line = refl

computed_has_changes :
    (xs ys : List String)
    → (has_changes (changes (compute_line_diff xs ys)) ≡ false) ↔ SameLines xs ys
unfolding compute_line_diff
computed_has_changes xs ys = elim (Bool-cases (has_diff xs ys)) [
  | inl differ ↦
      let seen = counted-HasChanges _ (total-changed_lines xs ys differ) in
      simp differ
        (λ h. absurd (cc (h, seen)), λ same. absurd (cc (differ, (has_diff_iff xs ys).1 same)))
  | inr level ↦
      simp (level, changed_lines-same xs ys level) (λ _. (has_diff_iff xs ys).0 level, λ _. no_line)
]

-- The preview of a file that is there shows no change exactly when the text on the disk and the text
-- desired have the same lines, where one of them may end in empty lines that the other has not.
pub diff_files-has_changes :
    (base existing desired : String)
    → (has_changes (diff_files base (holds existing) desired) ≡ false)
      ↔ SameLines (split existing b'\n') (split desired b'\n')
unfolding diff_files
diff_files-has_changes base existing desired = elim (Bool-cases (existing == desired)) [
  | inl same ↦
      simp same (λ _. SameLines-refl existing desired ((eq_iff _ _).0 same), λ _. no_change)
  | inr other ↦ rw other (computed_has_changes _ _)
]
