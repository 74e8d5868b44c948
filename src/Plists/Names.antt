-- ===== src/Plists/Names.antt =====
-- registry.go, `agentPlistFilename` and `plistServiceName`: how far one undoes the other.
use home_stack.Prelude.{
  ℕ, ◌≡◌, ◌≢◌, ◌↔◌, ◌⊎◌, refl, sym, ap, ◌∙◌, some, Option-cases, inl, inr, String, ◌<>◌, cut_prefix,
  cut_suffix, trim_suffix, cut_prefix-append, cut_suffix-append, eq-append_of_cut_prefix,
  eq-append_of_cut_suffix, cut_suffix-append_cases, arith, code, codes, codes-append, List, [], ◌∷◌,
  ◌++◌, All,
}
use mathlib.Core.Path.{subst}
use mathlib.Core.List.{tail}
use text.Mathlib.TextLemmas.{append_assoc, nil-append, cons-append, tail-eq_of_cons-eq}
use home_stack.Plists.{agent_plist_filename, plist_service_name}

abbrev stem : String → String
stem id_prefix = id_prefix <> ".home-stack."

stem-agent_plist_filename :
    (id_prefix name : String)
    → agent_plist_filename id_prefix name ≡ stem id_prefix <> (name <> ".plist")
unfolding agent_plist_filename
stem-agent_plist_filename id name = sym (append_assoc id ".home-stack." (name <> ".plist"))

-- The name of a service is read back from the name of its plist.
pub plist_service_name-agent_plist_filename :
    (id_prefix name : String)
    → plist_service_name id_prefix (agent_plist_filename id_prefix name) ≡ some name
unfolding plist_service_name
plist_service_name-agent_plist_filename id name =
    let rest = cut_prefix-append (stem id) (name <> ".plist") in
    let all = cut_suffix-append (stem id <> name) ".plist" in
    rw (stem-agent_plist_filename, rest, cut_suffix-append name ".plist", ← append_assoc, all)

abbrev last : List ℕ → ℕ
last [] = 0
last (x ∷ []) = x
last (x ∷ y ∷ l) = last (y ∷ l)

last-append : (xs : List ℕ) (y : ℕ) (ys : List ℕ) → last (xs ++ y ∷ ys) ≡ last (y ∷ ys)
last-append [] y ys = refl
last-append (x ∷ []) y ys = refl
last-append (x ∷ x' ∷ xs) y ys = last-append (x' ∷ xs) y ys

abbrev NoDot : List ℕ → Type 0
NoDot = All (λ c. c ≢ b'.')

NoDot-append : (xs ys : List ℕ) → NoDot (xs ++ ys) → NoDot xs
NoDot-append [] ys h = tt
NoDot-append (x ∷ xs) ys (p, h) = (p, NoDot-append xs ys h)

NoDot-last : (x : ℕ) (xs : List ℕ) → NoDot (x ∷ xs) → last (x ∷ xs) ≢ b'.'
NoDot-last x [] (h, _) = h
NoDot-last x (y ∷ xs) (h, t) = NoDot-last y xs t

plist-NoDot : NoDot (codes "plist")
plist-NoDot = ground arith

-- Where the suffix ".plist" of a text that begins with the stem reaches into the stem, it does so
-- by its dot only.
overlap :
    (id_prefix a b r : String) → stem id_prefix ≡ a <> b → b ≢ "" → ".plist" ≡ b <> r → r ≡ "plist"
overlap id a String.[] r e full h = absurd (full refl)
overlap id a (String.◌∷◌ c String.[]) r e full h =
    sym (tail-eq_of_cons-eq (rw (cons-append, nil-append) at h))
overlap id a (String.◌∷◌ c (String.◌∷◌ d b)) r e full h =
    let whole : codes (stem id) ≡ codes a ++ (code c ∷ code d ∷ codes b) =
      ap codes e ∙ codes-append a _ in
    let ends : last (codes (stem id)) ≡ b'.' =
      ap last (codes-append id ".home-stack.") ∙ last-append (codes id) b'.' _ in
    let ends' : last (code d ∷ codes b) ≡ b'.' =
      sym (last-append (codes a) (code c) (code d ∷ codes b)) ∙ sym (ap last whole) ∙ ends in
    let spelled : codes "plist" ≡ (code d ∷ codes b) ++ codes r =
      ap tail (ap codes h ∙ codes-append (String.◌∷◌ c (String.◌∷◌ d b)) r) in
    let plain : NoDot ((code d ∷ codes b) ++ codes r) = subst NoDot spelled plist-NoDot in
    absurd (NoDot-last (code d) (codes b) (NoDot-append (code d ∷ codes b) (codes r) plain) ends')

some-eq : {s t : String} → some s ≡ some t → s ≡ t
some-eq h = cc

trimmed-eq-some :
    (id_prefix filename name : String)
    → plist_service_name id_prefix filename ≡ some name
    → (r : String) × (q : String) × (filename ≡ stem id_prefix <> r)
      × (cut_suffix filename ".plist" ≡ some q)
      × (trim_suffix r ".plist" ≡ name)
unfolding plist_service_name
trimmed-eq-some id f name h = elim (Option-cases (cut_prefix f (stem id))) [
  | inl missing ↦ absurd (cc (rw missing at h))
  | inr (r, found) ↦ elim (Option-cases (cut_suffix f ".plist")) [
    | inl missing ↦ absurd (cc (rw (found, missing) at h))
    | inr (q, ends) ↦
        (r, q, eq-append_of_cut_prefix f (stem id) r found, ends, some-eq (rw (found, ends) at h))
  ]
]

trim_suffix-some : (r t : String) → cut_suffix r ".plist" ≡ some t → trim_suffix r ".plist" ≡ t
unfolding trim_suffix
trim_suffix-some r t h = rw h

trim_suffix_plist : trim_suffix "plist" ".plist" ≡ "plist"
unfolding trim_suffix
trim_suffix_plist = refl

pub read_back :
    (id_prefix filename name : String)
    → plist_service_name id_prefix filename ≡ some name
    → (filename ≡ agent_plist_filename id_prefix name)
      ⊎ ((filename ≡ id_prefix <> ".home-stack.plist") × (name ≡ "plist"))
read_back id f name h =
    let (r, q, whole, ends, trimmed) = trimmed-eq-some id f name h in
    elim (cut_suffix-append_cases (stem id) r q ".plist" (rw whole at ends)) [
      | inl (t, within, _) ↦
          let named : t ≡ name = sym (trim_suffix-some r t within) ∙ trimmed in
          inl (
            whole
            ∙ ap (λ x. stem id <> x) (eq-append_of_cut_suffix r ".plist" t within)
            ∙ ap (λ x. stem id <> (x <> ".plist")) named
            ∙ sym (stem-agent_plist_filename id name))
      | inr (a, b, reach, full, cut) ↦
          let short = overlap id a b r reach full cut in
          inr (
            whole ∙ ap (λ x. stem id <> x) short ∙ append_assoc id ".home-stack." "plist",
            sym trimmed ∙ ap (λ x. trim_suffix x ".plist") short ∙ trim_suffix_plist,
          )
    ]

stem_plist :
    (id_prefix : String)
    → plist_service_name id_prefix (id_prefix <> ".home-stack.plist") ≡ some "plist"
unfolding plist_service_name
stem_plist id =
    let by_stem : cut_prefix (id <> ".home-stack.plist") (stem id) ≡ some "plist" =
      ap (λ f. cut_prefix f (stem id)) (sym (append_assoc id ".home-stack." "plist"))
      ∙ cut_prefix-append (stem id) "plist" in
    let by_suffix : cut_suffix (id <> ".home-stack.plist") ".plist" ≡ some (id <> ".home-stack") =
      ap (λ f. cut_suffix f ".plist") (sym (append_assoc id ".home-stack" ".plist"))
      ∙ cut_suffix-append (id <> ".home-stack") ".plist" in
    rw (by_stem, by_suffix)

-- The file that `plistServiceName` reads as the plist of a service is that service's, or it is
-- named after the stem alone and read as the plist of a service called "plist".
pub plist_service_name_iff :
    (id_prefix filename name : String)
    → (plist_service_name id_prefix filename ≡ some name) ↔ (
        (filename ≡ agent_plist_filename id_prefix name)
        ⊎ ((filename ≡ id_prefix <> ".home-stack.plist") × (name ≡ "plist")))
plist_service_name_iff id f name = (
  read_back id f name,
  λ h. elim h [
    | inl e ↦ rw e (plist_service_name-agent_plist_filename id name)
    | inr (e, n) ↦ rw (e, n) (stem_plist id)
  ],
)
