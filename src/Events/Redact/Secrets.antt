-- ===== src/Events/Redact/Secrets.antt =====
-- events.go, `redactOutput`: the values of the secret settings.
use Prim.Native.Char.{Char, code}
use Prim.Native.String.{String}
use text.Mathlib.TextLemmas.{nil-append, cons-append, append_assoc}
use home_stack.Prelude.{
  ℕ, zero, suc, ◌-◌, Bool, true, false, ◌||◌, ◌≡◌, ◌⊎◌, inl, inr, refl, sym, subst, ◌∙◌, arith,
  String, ◌==◌, ◌<>◌, codes, length, cut_prefix, contains, contains_any, is_some, eqb, char_eq,
  Bool-cases,
}
use home_stack.Events.Redact.{replace_from}

-- A text is not empty, and has none of the characters that a test names.
abbrev pub IsClear : (ℕ → Bool) → String → Type 0
IsClear p w = ((w == "") ≡ false) × (contains_any p w ≡ false)

-- A character that a clear text does not have is not its first one.
other_first :
    (p : ℕ → Bool) (c d : Char) (w : String)
    → p (code c) ≡ true
    → contains_any p (String.◌∷◌ d w) ≡ false
    → char_eq c d ≡ false
unfolding contains_any
other_first p c d w named clear = elim (Bool-cases (char_eq c d)) [
  | inr other ↦ other
  | inl same ↦ let e : code c ≡ code d = ground arith in absurd (cc (rw (← e, named) at clear))
]

-- Where a text begins with a character that the part does not have, the part stands later.
contains-later :
    (p : ℕ → Bool) (c : Char) (t w : String)
    → p (code c) ≡ true
    → IsClear p w
    → contains (String.◌∷◌ c t) w ≡ true
    → contains t w ≡ true
unfolding contains cut_prefix
contains-later p c t String.[] named (full, clear) h = absurd (cc full)
contains-later p c t (String.◌∷◌ d w) named (full, clear) h =
    let other = other_first p c d w named clear in simp other at h

-- What a text begins with before such a character.
prefix_before :
    (p : ℕ → Bool) (d : Char) (u t w : String)
    → p (code d) ≡ true
    → contains_any p w ≡ false
    → is_some (cut_prefix (u <> String.◌∷◌ d t) w) ≡ true
    → is_some (cut_prefix u w) ≡ true
unfolding cut_prefix contains_any
prefix_before p d u t String.[] named clear h = refl
prefix_before p d String.[] t (String.◌∷◌ x w) named clear h =
    let other = other_first p d x w named clear in absurd (cc (simp other at rw nil-append at h))
prefix_before p d (String.◌∷◌ c u) t (String.◌∷◌ x w) named clear h =
    let h' = rw cons-append at h in
    elim (Bool-cases (char_eq c x)) [
      | inr other ↦ absurd (cc (simp other at h'))
      | inl same ↦ simp same (prefix_before p d u t w named (ground arith) (simp same at h'))
    ]

-- A part of a text with such a character in it stands before that or after it.
contains-split :
    (p : ℕ → Bool) (d : Char) (u t w : String)
    → p (code d) ≡ true
    → IsClear p w
    → contains (u <> String.◌∷◌ d t) w ≡ true
    → (contains u w ≡ true) ⊎ (contains t w ≡ true)
unfolding contains
contains-split p d String.[] t w named clear h =
    inr (contains-later p d t w named clear (rw nil-append at h))
contains-split p d (String.◌∷◌ c u) t w named clear h =
    let h' = rw cons-append at h in
    elim (Bool-cases (is_some (cut_prefix (String.◌∷◌ c (u <> String.◌∷◌ d t)) w))) [
      | inl starts ↦
          let here = prefix_before p d (String.◌∷◌ c u) t w named clear.1 (rw cons-append starts) in
          inl (rw here refl)
      | inr other ↦ elim (contains-split p d u t w named clear (rw other at h')) [
        | inl before ↦ inl (ground (arith, before))
        | inr after ↦ inr after
      ]
    ]

-- The same of a text of one such character.
pub split_at :
    (p : ℕ → Bool) (e u t w : String)
    → length (codes e) ≡ 1
    → contains_any p e ≡ true
    → IsClear p w
    → contains (u <> (e <> t)) w ≡ true
    → (contains u w ≡ true) ⊎ (contains t w ≡ true)
unfolding contains_any
split_at p String.[] u t w one named clear h = absurd (cc named)
split_at p (String.◌∷◌ d String.[]) u t w one named clear h =
    let here : p (code d) ≡ true = ground arith in
    contains-split p d u t w here clear (rw (cons-append, nil-append) at h)
split_at p (String.◌∷◌ d (String.◌∷◌ d' e)) u t w one named clear h = absurd (omega arith)

abbrev is_bracket : ℕ → Bool
is_bracket c = eqb c b'[' || eqb c b']'

-- A value that the replacement text can neither end nor begin nor hold.
abbrev pub IsApart : String → Type 0
IsApart w =
    ((w == "") ≡ false) × (contains_any is_bracket w ≡ false) × (contains "REDACTED" w ≡ false)

-- The part does not stand in the replacement, nor across its ends.
redacted-contains :
    (t w : String) → IsApart w → contains ("[REDACTED]" <> t) w ≡ true → contains t w ≡ true
unfolding contains cut_prefix contains_any
redacted-contains t w (full, clear, apart) h =
    let has : String → Type 0 = λ text. contains text w ≡ true in
    let opened : "[REDACTED]" <> t ≡ "" <> ("[" <> ("REDACTED]" <> t)) =
      append_assoc "[" "REDACTED]" t ∙ sym (nil-append _) in
    let closed : "REDACTED]" <> t ≡ "REDACTED" <> ("]" <> t) = append_assoc "REDACTED" "]" t in
    elim (split_at is_bracket "[" "" ("REDACTED]" <> t) w refl refl (full, clear)
      (subst has opened h)) [
        | inl nowhere ↦ absurd (cc (nowhere, full))
        | inr later ↦
            elim (split_at is_bracket "]" "REDACTED" t w refl refl (full, clear)
              (subst has closed later)) [
                | inl inside ↦ absurd (cc (inside, apart))
                | inr after ↦ after
              ]
      ]

pub first_apart :
    (p : ℕ → Bool) (e t : String) (d : Char) (w : String)
    → length (codes e) ≡ 1
    → contains_any p e ≡ true
    → contains_any p (String.◌∷◌ d w) ≡ false
    → is_some (cut_prefix (e <> t) (String.◌∷◌ d w)) ≡ false
unfolding cut_prefix contains_any
first_apart p String.[] t d w one named clear = absurd (cc named)
first_apart p (String.◌∷◌ c String.[]) t d w one named clear =
    let other = other_first p c d w (ground arith) clear in
    rw (cons-append, nil-append) (simp other refl)
first_apart p (String.◌∷◌ c (String.◌∷◌ c' e)) t d w one named clear = absurd (omega arith)

-- A text that begins with the replacement does not begin with the part.
redacted_first :
    (t : String) (d : Char) (w : String)
    → contains_any is_bracket (String.◌∷◌ d w) ≡ false
    → is_some (cut_prefix ("[REDACTED]" <> t) (String.◌∷◌ d w)) ≡ false
unfolding contains_any
redacted_first t d w clear =
    let first : String → Type 0 = λ text. is_some (cut_prefix text (String.◌∷◌ d w)) ≡ false in
    subst first (sym (append_assoc "[" "REDACTED]" t))
      (first_apart is_bracket "[" ("REDACTED]" <> t) d w refl refl clear)

-- What the text begins with after the value is replaced, it began with before.
replaced_prefix :
    (s v w : String)
    → contains_any is_bracket w ≡ false
    → is_some (cut_prefix (replace_from 0 s v) w) ≡ true
    → is_some (cut_prefix s w) ≡ true
unfolding replace_from cut_prefix contains_any
replaced_prefix s v String.[] clear h = refl
replaced_prefix String.[] v (String.◌∷◌ d w) clear h = absurd (cc h)
replaced_prefix (String.◌∷◌ c s) v (String.◌∷◌ d w) clear h =
    elim (Bool-cases (is_some (cut_prefix (String.◌∷◌ c s) v))) [
      | inl hit ↦
          let first = redacted_first (replace_from (length (codes v) - 1) s v) d w clear in
          absurd (cc (rw (hit, replace_from) at h, first))
      | inr miss ↦
          let h' = rw (miss, replace_from) at h in
          elim (Bool-cases (char_eq c d)) [
            | inr other ↦ absurd (cc (simp other at h'))
            | inl same ↦ simp same (replaced_prefix s v w (ground arith) (simp same at h'))
          ]
    ]

-- A part that stands in the text with a value replaced stood there before.
pub replaced-contains :
    (n : ℕ) (s v w : String)
    → IsApart w
    → contains (replace_from n s v) w ≡ true
    → contains s w ≡ true
unfolding replace_from contains
replaced-contains n String.[] v w apart h = h
replaced-contains (suc n) (String.◌∷◌ c s) v w apart h =
    let later = replaced-contains n s v w apart h in ground (arith, later)
replaced-contains zero (String.◌∷◌ c s) v w apart h =
    elim (Bool-cases (is_some (cut_prefix (String.◌∷◌ c s) v))) [
      | inl hit ↦
          let after = redacted-contains _ w apart (rw (hit, replace_from) at h) in
          let later = replaced-contains (length (codes v) - 1) s v w apart after in
          ground (arith, later)
      | inr miss ↦
          let h' = rw (miss, replace_from) at h in
          elim (Bool-cases (is_some (cut_prefix (String.◌∷◌ c (replace_from 0 s v)) w))) [
            | inl starts ↦
                let here =
                  replaced_prefix (String.◌∷◌ c s) v w apart.1 (rw (miss, replace_from) starts) in
                rw here refl
            | inr other ↦
                let later = replaced-contains 0 s v w apart (rw other at h') in
                ground (arith, later)
          ]
    ]

-- A value that is replaced stands nowhere afterwards.
pub replaced-gone : (n : ℕ) (s v : String) → IsApart v → contains (replace_from n s v) v ≡ true → ⊥
unfolding replace_from contains
replaced-gone n String.[] v apart h = cc (h, apart.0)
replaced-gone (suc n) (String.◌∷◌ c s) v apart h = replaced-gone n s v apart h
replaced-gone zero (String.◌∷◌ c s) v apart h =
    elim (Bool-cases (is_some (cut_prefix (String.◌∷◌ c s) v))) [
      | inl hit ↦
          replaced-gone (length (codes v) - 1) s v apart
            (redacted-contains _ v apart (rw (hit, replace_from) at h))
      | inr miss ↦
          let h' = rw (miss, replace_from) at h in
          elim (Bool-cases (is_some (cut_prefix (String.◌∷◌ c (replace_from 0 s v)) v))) [
            | inl starts ↦
                let here =
                  replaced_prefix (String.◌∷◌ c s) v v apart.1 (rw (miss, replace_from) starts) in
                cc (here, miss)
            | inr other ↦ replaced-gone 0 s v apart (rw other at h')
          ]
    ]
