-- ===== src/Launchd/Reader.antt =====
-- How an XML parser reads a text that `xmlText` wrote.
use Prim.Native.Char.{Char, code}
use home_stack.Prelude.{
  ℕ, ◌+◌, ◌-◌, ◌*◌, Bool, true, false, ◌&&◌, ◌||◌, ◌≡◌, refl, ◌∙◌, ap, String, codes, codes-append,
  leb, eqb, if◌then◌else◌, Option, none, some, arith, Bool-cases, inl, inr, All, List, [], ◌∷◌,
  ◌++◌,
}
use home_stack.Launchd.Xml.{is_xml_char, escape_char, xml_text}

-- A reader of character data: `&` begins a reference, `;` ends it.
abbrev digit_value : ℕ → ℕ
digit_value c = if leb c b'9' then c - b'0' else if leb c b'F' then c - 55 else c - 87

abbrev number_from : ℕ → ℕ → List ℕ → ℕ
number_from base n [] = n
number_from base n (c ∷ cs) = number_from base (n * base + digit_value c) cs

abbrev same_codes : List ℕ → List ℕ → Bool
same_codes [] [] = true
same_codes [] (d ∷ ds) = false
same_codes (c ∷ cs) [] = false
same_codes (c ∷ cs) (d ∷ ds) = eqb c d && same_codes cs ds

-- The character of a reference, given without `&` and `;`.
abbrev numeric : List ℕ → ℕ
numeric [] = 0
numeric (c ∷ cs) = if eqb c b'x' then number_from 16 0 cs else number_from 10 0 (c ∷ cs)

abbrev named : List ℕ → ℕ
named cs =
    if same_codes cs (codes "amp")
    then b'&'
    else if same_codes cs (codes "lt")
    then b'<'
    else if same_codes cs (codes "gt")
    then b'>'
    else 0

abbrev referred : List ℕ → ℕ
referred [] = 0
referred (c ∷ cs) = if eqb c b'#' then numeric cs else named (c ∷ cs)

-- The reference read so far is `none` outside of one.
unfoldable pub read : Option (List ℕ) → List ℕ → List ℕ
read pending [] = []
read none (c ∷ cs) = elim (eqb c b'&') [ true ↦ read (some []) cs | false ↦ c ∷ read none cs ]
read (some name) (c ∷ cs) = elim (eqb c b';') [
  | true ↦ referred name ∷ read none cs
  | false ↦ read (some (name ++ (c ∷ []))) cs
]

read-escape_char :
    (c : Char) (rest : List ℕ)
    → is_xml_char (code c) ≡ true
    → read none (codes (escape_char c) ++ rest) ≡ code c ∷ read none rest
unfolding read
read-escape_char c rest legal = elim (Bool-cases (eqb (code c) 34)) [
  | inl e34 ↦ simp e34 (let k : code c ≡ 34 = ground arith in rw k refl)
  | inr e34 ↦ simp e34 (elim (Bool-cases (eqb (code c) 39)) [
    | inl e39 ↦ simp e39 (let k : code c ≡ 39 = ground arith in rw k refl)
    | inr e39 ↦ simp e39 (elim (Bool-cases (eqb (code c) 38)) [
      | inl e38 ↦ simp e38 (let k : code c ≡ 38 = ground arith in rw k refl)
      | inr e38 ↦ simp e38 (elim (Bool-cases (eqb (code c) 60)) [
        | inl e60 ↦ simp e60 (let k : code c ≡ 60 = ground arith in rw k refl)
        | inr e60 ↦ simp e60 (elim (Bool-cases (eqb (code c) 62)) [
          | inl e62 ↦ simp e62 (let k : code c ≡ 62 = ground arith in rw k refl)
          | inr e62 ↦ simp e62 (elim (Bool-cases (eqb (code c) 9)) [
            | inl e9 ↦ simp e9 (let k : code c ≡ 9 = ground arith in rw k refl)
            | inr e9 ↦ simp e9 (elim (Bool-cases (eqb (code c) 10)) [
              | inl e10 ↦ simp e10 (let k : code c ≡ 10 = ground arith in rw k refl)
              | inr e10 ↦ simp e10 (elim (Bool-cases (eqb (code c) 13)) [
                | inl e13 ↦ simp e13 (let k : code c ≡ 13 = ground arith in rw k refl)
                | inr e13 ↦ simp e13 (simp legal (rw (e38, read) refl))
              ])
            ])
          ])
        ])
      ])
    ])
  ])
]

-- An escaped text, read back, is the text, if an XML document can have its characters.
pub read-xml_text :
    (s : String)
    → All (λ c. is_xml_char c ≡ true) (codes s)
    → read none (codes (xml_text s)) ≡ codes s
unfolding xml_text read
read-xml_text String.[] legal = refl
read-xml_text (String.◌∷◌ c s) (here, legal) =
    ap (read none) (codes-append (escape_char c) (xml_text s))
    ∙ read-escape_char c (codes (xml_text s)) here
    ∙ ap (λ cs. code c ∷ cs) (read-xml_text s legal)

-- Whether a character could begin or end a tag, or end an attribute.
abbrev pub is_markup : ℕ → Bool
is_markup c = eqb c b'<' || eqb c b'>' || eqb c b'"'
