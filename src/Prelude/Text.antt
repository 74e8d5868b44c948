-- ===== src/Prelude/Text.antt =====
-- What the program uses of Go's package strings. Texts are native strings, walked by code point;
-- where the program slices bytes, it does so at ASCII characters, or the module that models it says
-- what it does instead.
use Prim.Native.Nat.{ℕ, ◌+◌}
use Prim.Native.Char.{Char, code}
use Prim.Native.String
use Prim.Native.String.{String, [], ◌∷◌, count}
use mathlib.Core.Path.{◌≡◌, refl, ap, sym, ◌∙◌}
use mathlib.Core.Bool.{Bool, true, false, ◌&&◌, ◌||◌}
use mathlib.Core.Logic.{◌≢◌, ◌⊎◌, inl, inr}
use mathlib.Core.Option
use mathlib.Core.Option.{Option, none, some}
use mathlib.Core.List
use mathlib.Core.List.{List}
use native.Mathlib.Omega.{arith}
use text.Mathlib.Text.{◌==◌}
use text.Mathlib.TextEquality.{Char-path, eq_iff}
use text.Mathlib.TextPositions.{eq_refl}
use text.Mathlib.TextLemmas.{nil-append, cons-append, length-append, length-cons}
use home_stack.Prelude.Tests.{eqb, leb, if◌then◌else◌, is_some, Bool-cases}

infixr 66 ◌<>◌
-- Concatenation of texts, Go's `+`.
abbrev pub ◌<>◌ : String → String → String
s <> t = String.◌++◌ s t

-- The code points of a text.
abbrev pub codes : String → List ℕ
codes [] = List.[]
codes (c ∷ s) = List.◌∷◌ (code c) (codes s)

abbrev pub char_eq : Char → Char → Bool
char_eq c d = eqb (code c) (code d)

-- What follows a prefix, if the text begins with it.
unfoldable pub cut_prefix : String → String → Option String
cut_prefix s [] = some s
cut_prefix [] (p ∷ ps) = none
cut_prefix (c ∷ s) (p ∷ ps) = if char_eq c p then cut_prefix s ps else none

-- What stands before a suffix, if the text ends with it.
pub cut_suffix : String → String → Option String
cut_suffix [] p = if "" == p then some "" else none
cut_suffix (c ∷ s) p = if (c ∷ s) == p then some "" else Option.map (λ r. c ∷ r) (cut_suffix s p)

unfoldable pub has_prefix : String → String → Bool
unfolding cut_prefix
has_prefix s p = is_some (cut_prefix s p)

unfoldable pub has_suffix : String → String → Bool
unfolding cut_suffix
has_suffix s p = is_some (cut_suffix s p)

unfoldable pub trim_prefix : String → String → String
unfolding cut_prefix
trim_prefix s p = Option.get_or (cut_prefix s p) s

unfoldable pub trim_suffix : String → String → String
unfolding cut_suffix
trim_suffix s p = Option.get_or (cut_suffix s p) s

-- `strings.ContainsAny` over a set of ASCII characters, given by their test.
unfoldable pub contains_any : (ℕ → Bool) → String → Bool
contains_any p [] = false
contains_any p (c ∷ s) = p (code c) || contains_any p s

-- `strings.Contains`.
unfoldable pub contains : String → String → Bool
unfolding cut_prefix
contains [] part = part == ""
contains (c ∷ s) part = is_some (cut_prefix (c ∷ s) part) || contains s part

-- `strings.ToLower` on the ASCII letters, by code point.
abbrev pub to_lower : ℕ → ℕ
to_lower c = if leb b'A' c && leb c b'Z' then c + 32 else c

-- `strings.EqualFold`, on ASCII letters; the folds of other letters are left out.
unfoldable pub equal_fold : String → String → Bool
equal_fold [] [] = true
equal_fold [] (d ∷ t) = false
equal_fold (c ∷ s) [] = false
equal_fold (c ∷ s) (d ∷ t) = eqb (to_lower (code c)) (to_lower (code d)) && equal_fold s t

-- `strings.Join`.
unfoldable pub join : List String → String → String
join List.[] sep = ""
join (List.◌∷◌ x List.[]) sep = x
join (List.◌∷◌ x xs) sep = x <> sep <> join xs sep

abbrev pub onto_head : Char → List String → List String
onto_head c List.[] = List.◌∷◌ (c ∷ "") List.[]
onto_head c (List.◌∷◌ p ps) = List.◌∷◌ (c ∷ p) ps

-- `strings.Split` at one ASCII character.
unfoldable pub split : String → ℕ → List String
split [] sep = List.◌∷◌ "" List.[]
split (c ∷ s) sep =
    let parts = split s sep in if eqb (code c) sep then List.◌∷◌ "" parts else onto_head c parts

pub cut_prefix-append : (p s : String) → cut_prefix (p <> s) p ≡ some s
unfolding cut_prefix
cut_prefix-append [] s = ap some (nil-append s)
cut_prefix-append (c ∷ p) s = rw cons-append (ground (arith, cut_prefix-append p s))

pub eq-append_of_cut_prefix : (s p r : String) → cut_prefix s p ≡ some r → s ≡ p <> r
unfolding cut_prefix
eq-append_of_cut_prefix s [] r h = rw nil-append (ground arith)
eq-append_of_cut_prefix [] (c ∷ p) r h = ground arith
eq-append_of_cut_prefix (c ∷ s) (d ∷ p) r h =
    let same : code c ≡ code d = ground arith in
    let rest = eq-append_of_cut_prefix s p r (ground arith) in
    rw (cons-append, Char-path c d same, rest)

pub slash_of_code : (c : Char) → eqb (code c) b'/' ≡ true → (c ∷ "") ≡ "/"
unfolding cut_prefix
slash_of_code c slash = eq-append_of_cut_prefix (c ∷ "") "/" "" (simp slash refl)

-- A text that begins with one character does not begin with another.
pub has_prefix-other :
    (c d : Char) (s : String) → char_eq c d ≡ false → has_prefix ((c ∷ "") <> s) (d ∷ "") ≡ false
unfolding has_prefix
has_prefix-other c d s other = rw (cons-append, nil-append, other) refl

pub equal_fold_refl : (s : String) → equal_fold s s ≡ true
unfolding equal_fold
equal_fold_refl [] = refl
equal_fold_refl (c ∷ s) = ground (arith, equal_fold_refl s)

pub eq-append_of_cut_suffix : (s p r : String) → cut_suffix s p ≡ some r → s ≡ r <> p
unfolding cut_suffix
eq-append_of_cut_suffix [] p r h = elim (Bool-cases ("" == p)) [
  | inl same ↦
      let none_left : r ≡ "" = ground arith in rw (none_left, nil-append) ((eq_iff "" p).0 same)
  | inr other ↦ ground arith
]
eq-append_of_cut_suffix (c ∷ s) p r h = elim (Bool-cases ((c ∷ s) == p)) [
  | inl same ↦
      let none_left : r ≡ "" = ground arith in
      rw (none_left, nil-append) ((eq_iff (c ∷ s) p).0 same)
  | inr other ↦
      let (t, found, same) = (Option.map-eq-some_iff _ _).0 (rw other at h) in
      rw (← same, cons-append) (ap (λ x. c ∷ x) (eq-append_of_cut_suffix s p t found))
]

-- No text is longer than itself.
cons-append-ne : (c : Char) (s p : String) → (c ∷ s) <> p ≢ p
cons-append-ne c s p e = omega (arith, ap count e, length-append (c ∷ s) p, length-cons c s)

pub cut_suffix-append : (s p : String) → cut_suffix (s <> p) p ≡ some s
unfolding cut_suffix
cut_suffix-append [] [] = refl
cut_suffix-append [] (c ∷ p) = rw (nil-append, eq_refl)
cut_suffix-append (c ∷ s) p = elim (Bool-cases ((c ∷ (s <> p)) == p)) [
  | inl same ↦ absurd (cons-append-ne c s p (cons-append c s p ∙ (eq_iff _ p).0 same))
  | inr other ↦ rw (cons-append, other, cut_suffix-append s p)
]

pub codes-append : (s t : String) → codes (s <> t) ≡ List.◌++◌ (codes s) (codes t)
codes-append [] t = rw nil-append
codes-append (c ∷ s) t = rw (cons-append, codes-append s t)

-- A suffix of a concatenation lies within the second part, or reaches into the first.
pub cut_suffix-append_cases :
    (p r q suffix : String)
    → cut_suffix (p <> r) suffix ≡ some q
    → ((t : String) × (cut_suffix r suffix ≡ some t) × (q ≡ p <> t))
      ⊎ ((a : String) × (b : String) × (p ≡ a <> b) × (b ≢ "") × (suffix ≡ b <> r))
unfolding cut_suffix
cut_suffix-append_cases [] r q suffix h = inl (q, rw nil-append at h, rw nil-append)
cut_suffix-append_cases (c ∷ p) r q suffix h =
    let h' = rw cons-append at h in
    elim (Bool-cases ((c ∷ (p <> r)) == suffix)) [
      | inl same ↦
          inr
            ("", c ∷ p, rw nil-append, (λ e. cc e), rw cons-append (sym ((eq_iff _ suffix).0 same)))
      | inr other ↦
          let (t, found, same) = (Option.map-eq-some_iff _ _).0 (rw other at h') in
          elim (cut_suffix-append_cases p r t suffix found) [
            | inl (u, within, e) ↦ inl (u, within, rw (← same, e, cons-append) refl)
            | inr (a, b, e, full, e') ↦ inr (c ∷ a, b, rw (cons-append, e) refl, full, e')
          ]
    ]

-- `unicode.IsSpace`.
abbrev is_space : ℕ → Bool
is_space c =
    (leb 9 c && leb c 13)
    || eqb c 32
    || eqb c 133
    || eqb c 160
    || eqb c 5760
    || (leb 8192 c && leb c 8202)
    || eqb c 8232
    || eqb c 8233
    || eqb c 8239
    || eqb c 8287
    || eqb c 12288

abbrev trim_left : String → String
trim_left [] = ""
trim_left (c ∷ s) = let rest = trim_left s in if is_space (code c) then rest else c ∷ s

abbrev trim_right : String → String
trim_right [] = ""
trim_right (c ∷ s) =
    let rest = trim_right s in if is_space (code c) && rest == "" then "" else c ∷ rest

-- `strings.TrimSpace`.
unfoldable pub trim_space : String → String
trim_space s = trim_right (trim_left s)

-- `strings.ReplaceAll` of one ASCII character by a text.
unfoldable pub replace_all : String → ℕ → String → String
replace_all [] old new = ""
replace_all (c ∷ s) old new =
    let rest = replace_all s old new in if eqb (code c) old then new <> rest else c ∷ rest
