-- ===== src/Events/Redact/Hidden.antt =====
-- events.go, `redactOutput`: the secret settings do not show in what it gives, cut or not.
use Prim.Native.Char.{Char}
use Prim.Native.String.{String}
use text.Mathlib.TextLemmas.{nil-append, cons-append, append_assoc}
use home_stack.Prelude.{
  ℕ, zero, suc, ◌-◌, Bool, true, false, ◌||◌, ◌≡◌, ◌⊎◌, inl, inr, refl, sym, ap, subst, ◌∙◌, arith,
  String, ◌==◌, ◌<>◌, cut_prefix, contains, contains_any, is_some, eqb, char_eq, Bool-cases, ltb,
  leb, code,
}
use home_stack.Events.Redact.{
  redact_value, dropping, redact_from, strays, cut_bytes, cut_long, byte_length, width,
  without_secrets, redact_output,
}
use home_stack.Events.Redact.Secrets.{
  IsClear, IsApart, split_at, first_apart, replaced-contains, replaced-gone,
}

-- The marks of a cut.
abbrev is_mark : ℕ → Bool
is_mark c = eqb c 8230 || eqb c 65533

strays-apart : (n : ℕ) (w : String) → IsClear is_mark w → contains (strays n <> "…") w ≡ true → ⊥
unfolding contains contains_any
strays-apart n w clear h = go n h
  where
    go : (n : ℕ) → contains (strays n <> "…") w ≡ true → ⊥
    go zero h = elim (split_at is_mark "…" "" "" w refl refl clear h) [
      | inl nowhere ↦ absurd (cc (nowhere, clear.0))
      | inr nowhere ↦ absurd (cc (nowhere, clear.0))
    ]
    go (suc n) h =
        let has : String → Type 0 = λ text. contains text w ≡ true in
        let opened : ("�" <> strays n) <> "…" ≡ "" <> ("�" <> (strays n <> "…")) =
          append_assoc "�" (strays n) "…" ∙ sym (nil-append _) in
        elim (split_at is_mark "�" "" (strays n <> "…") w refl refl clear (subst has opened h)) [
          | inl nowhere ↦ absurd (cc (nowhere, clear.0))
          | inr later ↦ go n later
        ]

strays_first :
    (n : ℕ) (d : Char) (w : String)
    → contains_any is_mark (String.◌∷◌ d w) ≡ false
    → is_some (cut_prefix (strays n <> "…") (String.◌∷◌ d w)) ≡ false
unfolding contains_any
strays_first zero d w clear = first_apart is_mark "…" "" d w refl refl clear
strays_first (suc n) d w clear =
    let first : String → Type 0 = λ text. is_some (cut_prefix text (String.◌∷◌ d w)) ≡ false in
    subst first (sym (append_assoc "�" (strays n) "…"))
      (first_apart is_mark "�" (strays n <> "…") d w refl refl clear)

-- What the cut text begins with, the whole text begins with.
cut_prefix-cut :
    (n : ℕ) (s w : String)
    → contains_any is_mark w ≡ false
    → is_some (cut_prefix (cut_bytes n s <> "…") w) ≡ true
    → is_some (cut_prefix s w) ≡ true
unfolding cut_bytes cut_prefix contains_any
cut_prefix-cut n s String.[] clear h = refl
cut_prefix-cut n String.[] (String.◌∷◌ d w) clear h = absurd (cc (h, strays_first 0 d w clear))
cut_prefix-cut n (String.◌∷◌ c s) (String.◌∷◌ d w) clear h =
    elim (Bool-cases (leb (width (code c)) n)) [
      | inr full ↦ absurd (cc (simp full at h, strays_first n d w clear))
      | inl fits ↦
          let h' = rw cons-append at (simp fits at h) in
          elim (Bool-cases (char_eq c d)) [
            | inr other ↦ absurd (cc (simp other at h'))
            | inl same ↦
                simp same (cut_prefix-cut (n - width (code c)) s w (ground arith) (simp same at h'))
          ]
    ]

cut-contains :
    (n : ℕ) (s w : String)
    → IsClear is_mark w
    → contains (cut_bytes n s <> "…") w ≡ true
    → contains s w ≡ true
unfolding cut_bytes contains
cut-contains n String.[] w clear h = absurd (strays-apart 0 w clear h)
cut-contains n (String.◌∷◌ c s) w clear h = elim (Bool-cases (leb (width (code c)) n)) [
  | inr full ↦ absurd (strays-apart n w clear (simp full at h))
  | inl fits ↦
      let rest = cut_bytes (n - width (code c)) s in
      let h' = rw cons-append at (simp fits at h) in
      elim (Bool-cases (is_some (cut_prefix (String.◌∷◌ c (rest <> "…")) w))) [
        | inl starts ↦
            let here =
              cut_prefix-cut n (String.◌∷◌ c s) w clear.1 (simp fits (rw cons-append starts)) in
            rw here refl
        | inr other ↦
            let later = cut-contains (n - width (code c)) s w clear (rw other at h') in
            ground (arith, later)
      ]
]

cut_long-contains :
    (s w : String) → IsClear is_mark w → contains (cut_long s) w ≡ true → contains s w ≡ true
cut_long-contains s w clear h = elim (Bool-cases (ltb 800 (byte_length s))) [
  | inl long ↦ cut-contains 800 s w clear (simp long at h)
  | inr short ↦ simp short at h
]

redact_value-contains :
    (s v w : String) → IsApart w → contains (redact_value s v) w ≡ true → contains s w ≡ true
redact_value-contains s v w apart h = elim (Bool-cases (v == "")) [
  | inl unset ↦ simp unset at h
  | inr is_set ↦ replaced-contains 0 s v w apart (simp is_set at h)
]

redact_value-gone : (s v : String) → IsApart v → contains (redact_value s v) v ≡ true → ⊥
redact_value-gone s v apart h = replaced-gone 0 s v apart (simp apart.0 at h)

-- The settings whose values are secrets.
abbrev pub IsSecret : String → Type 0
IsSecret name =
    (name ≡ "HOME_STACK_ADMIN_PASSWORD")
    ⊎ ((name ≡ "HOME_STACK_CLOUDFLARE_API_TOKEN") ⊎ (name ≡ "CLOUDFLARE_API_TOKEN"))

-- A value that can be told from the marks: it is not empty, has no bracket and no character that marks a
-- cut, and is no part of the word of the replacement.
abbrev pub IsTold : String → Type 0
IsTold w = IsApart w × (contains_any is_mark w ≡ false)

secrets_gone :
    (getenv : String → String) (s name : String)
    → IsSecret name
    → IsApart (getenv name)
    → contains (without_secrets getenv s) (getenv name) ≡ true
    → ⊥
unfolding without_secrets
secrets_gone getenv s name secret apart h =
    let w = getenv name in
    let first = redact_from (dropping 0) s in
    let second = redact_value first (getenv "HOME_STACK_ADMIN_PASSWORD") in
    let third = redact_value second (getenv "HOME_STACK_CLOUDFLARE_API_TOKEN") in
    let gone : String → String → Type 0 = λ text v. contains (redact_value text v) w ≡ true in
    elim secret [
      | inr (inr e) ↦ redact_value-gone third w apart (subst (gone third) (ap getenv (sym e)) h)
      | inr (inl e) ↦
          let before = redact_value-contains third (getenv "CLOUDFLARE_API_TOKEN") w apart h in
          redact_value-gone second w apart (subst (gone second) (ap getenv (sym e)) before)
      | inl e ↦
          let before = redact_value-contains third (getenv "CLOUDFLARE_API_TOKEN") w apart h in
          let earlier =
            redact_value-contains second (getenv "HOME_STACK_CLOUDFLARE_API_TOKEN") w apart
              before in
          redact_value-gone first w apart (subst (gone first) (ap getenv (sym e)) earlier)
    ]

-- The values of the administrator's password and of the two Cloudflare tokens stand nowhere in a redacted
-- output, whatever the output was and wherever it is cut, as long as a value can be told from the marks:
-- it is not empty, has none of the characters "[", "]", "…" and "�", and is no part of "REDACTED".
pub redact_output-hides :
    (getenv : String → String) (s name : String)
    → IsSecret name
    → IsTold (getenv name)
    → contains (redact_output getenv s) (getenv name) ≡ false
unfolding redact_output
redact_output-hides getenv s name secret (apart, clear) =
    elim (Bool-cases (contains (redact_output getenv s) (getenv name))) [
      | inr hidden ↦ hidden
      | inl shown ↦ absurd (
          secrets_gone getenv s name secret apart
            (cut_long-contains (without_secrets getenv s) (getenv name) (apart.0, clear) shown))
    ]
