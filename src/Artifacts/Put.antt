-- ===== src/Artifacts/Put.antt =====
-- engine.go, the maps that the loop of `desiredArtifacts` fills.
use home_stack.Prelude.{
  false, ◌≡◌, refl, sym, ap, ap₂, ◌∙◌, [], ◌∷◌, Option, none, some, String, ◌==◌, eq_iff, eq_refl,
  Map, lookup, insert, lookup-insert, HasDistinctKeys, insert-HasDistinctKeys, Bool-cases, inl, inr,
}
use home_stack.Registry.{Service}

-- A map with one more entry, if there is one.
abbrev pub put : String → Option String → Map String → Map String
put name none m = m
put name (some text) m = insert name text m

-- The texts that a function gives some of the services.
abbrev pub put_all : (String → Service → Option String) → Map Service → Map String → Map String
put_all f [] m = m
put_all f ((name, svc) ∷ rest) m = put_all f rest (put name (f name svc) m)

put-HasDistinctKeys :
    (name : String) (o : Option String) (m : Map String)
    → HasDistinctKeys m
    → HasDistinctKeys (put name o m)
put-HasDistinctKeys name none m d = d
put-HasDistinctKeys name (some text) m d = insert-HasDistinctKeys name text m d

pub put_all-HasDistinctKeys :
    (f : String → Service → Option String) (services : Map Service) (m : Map String)
    → HasDistinctKeys m
    → HasDistinctKeys (put_all f services m)
put_all-HasDistinctKeys f [] m d = d
put_all-HasDistinctKeys f ((name, svc) ∷ rest) m d =
    put_all-HasDistinctKeys f rest _ (put-HasDistinctKeys name (f name svc) m d)

put_other :
    (name k : String) (o : Option String) (m : Map String)
    → (name == k) ≡ false
    → lookup k (put name o m) ≡ lookup k m
put_other name k none m other = refl
put_other name k (some text) m other = lookup-insert name k text m ∙ rw other refl

put_self :
    (name : String) (o : Option String) (m : Map String)
    → lookup name m ≡ none
    → lookup name (put name o m) ≡ o
put_self name none m fresh = fresh
put_self name (some text) m fresh = lookup-insert name name text m ∙ rw eq_refl refl

pub put_all_foreign :
    (f : String → Service → Option String) (services : Map Service) (m : Map String) (name : String)
    → lookup name services ≡ none
    → lookup name (put_all f services m) ≡ lookup name m
unfolding lookup
put_all_foreign f [] m name h = refl
put_all_foreign f ((k, svc) ∷ rest) m name h = elim (Bool-cases (k == name)) [
  | inl same ↦ absurd (cc (rw same at h))
  | inr other ↦ put_all_foreign f rest _ name (rw other at h) ∙ put_other k name (f k svc) m other
]

pub lookup-put_all :
    (f : String → Service → Option String) (services : Map Service) (m : Map String)
    → (name : String) (svc : Service) → HasDistinctKeys services
    → lookup name services ≡ some svc
    → lookup name m ≡ none
    → lookup name (put_all f services m) ≡ f name svc
unfolding lookup
lookup-put_all f [] m name svc d h fresh = absurd (cc h)
lookup-put_all f ((k, v) ∷ rest) m name svc (new, d) h fresh = elim (Bool-cases (k == name)) [
  | inl same ↦
      let e : k ≡ name = (eq_iff k name).0 same in
      let gone : lookup name rest ≡ none = rw (← e) new in
      let here : f k v ≡ f name svc =
        ap₂ f e (ap (λ o. elim o [ none ↦ v | some found ↦ found ]) (rw same at h)) in
      put_all_foreign f rest _ name gone
      ∙ ap (λ x. lookup x (put k (f k v) m)) (sym e)
      ∙ put_self k (f k v) m (ap (λ x. lookup x m) e ∙ fresh)
      ∙ here
  | inr other ↦
      lookup-put_all f rest _ name svc d (rw other at h) (put_other k name (f k v) m other ∙ fresh)
]
