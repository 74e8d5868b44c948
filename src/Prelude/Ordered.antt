-- ===== src/Prelude/Ordered.antt =====
-- `sort.Strings` and `sort.Slice` by a name. Texts are ordered by their code points, which is the
-- order of their UTF-8 bytes. An insertion sort stands for the library's, whose result on distinct
-- names is the same.
use Prim.Native.Char.{code}
use Prim.Native.String.{String}
use Prim.Native.Nat.{suc}
use mathlib.Core.Path.{◌≡◌, refl, ap, ap₂, sym, ◌∙◌}
use mathlib.Core.Bool.{Bool, true, false}
use mathlib.Core.List.{List, [], ◌∷◌, Permᴰ, Memᴰ}
use native.Mathlib.Omega.{arith}
use text.Mathlib.TextEquality.{Char-path}
use home_stack.Prelude.Tests.{ltb, if◌then◌else◌, Bool-cases}
use home_stack.Prelude.Lists.{All, length}
use mathlib.Core.Logic.{inl, inr}

unfoldable pub text_leb : String → String → Bool
text_leb String.[] t = true
text_leb (String.◌∷◌ c s) String.[] = false
text_leb (String.◌∷◌ c s) (String.◌∷◌ d t) =
    if ltb (code c) (code d) then true else if ltb (code d) (code c) then false else text_leb s t

pub text_leb_total : (s t : String) → text_leb s t ≡ false → text_leb t s ≡ true
unfolding text_leb
text_leb_total String.[] t h = ground arith
text_leb_total (String.◌∷◌ c s) String.[] h = refl
text_leb_total (String.◌∷◌ c s) (String.◌∷◌ d t) h = ground (arith, text_leb_total s t)

pub text_leb_antisym : (s t : String) → text_leb s t ≡ true → text_leb t s ≡ true → s ≡ t
unfolding text_leb
text_leb_antisym String.[] String.[] h k = refl
text_leb_antisym String.[] (String.◌∷◌ d t) h k = ground arith
text_leb_antisym (String.◌∷◌ c s) String.[] h k = ground arith
text_leb_antisym (String.◌∷◌ c s) (String.◌∷◌ d t) h k =
    let same : code c ≡ code d = ground arith in
    rw (Char-path c d same, text_leb_antisym s t (ground arith) (ground arith))

pub text_leb_trans :
    (s t u : String) → text_leb s t ≡ true → text_leb t u ≡ true → text_leb s u ≡ true
unfolding text_leb
text_leb_trans String.[] t u h k = refl
text_leb_trans (String.◌∷◌ c s) String.[] u h k = ground arith
text_leb_trans (String.◌∷◌ c s) (String.◌∷◌ d t) String.[] h k = ground arith
text_leb_trans (String.◌∷◌ c s) (String.◌∷◌ d t) (String.◌∷◌ e u) h k =
    ground (arith, text_leb_trans s t u)

pub perm-mem {ℓ} : {A : Type ℓ} {a : A} {l m : List A} → Permᴰ l m → Memᴰ a m → Memᴰ a l
perm-mem Permᴰ.nil h = elim h [ ]
perm-mem (Permᴰ.cons e p) (Memᴰ.head h) = Memᴰ.head (h ∙ sym e)
perm-mem (Permᴰ.cons e p) (Memᴰ.tail h) = Memᴰ.tail (perm-mem p h)
perm-mem (Permᴰ.swap e f) (Memᴰ.head h) = Memᴰ.tail (Memᴰ.head (h ∙ sym f))
perm-mem (Permᴰ.swap e f) (Memᴰ.tail (Memᴰ.head h)) = Memᴰ.head (h ∙ sym e)
perm-mem (Permᴰ.swap e f) (Memᴰ.tail (Memᴰ.tail h)) = Memᴰ.tail (Memᴰ.tail h)
perm-mem (Permᴰ.trans p q) h = perm-mem p (perm-mem q h)

module _ {ℓ} {A : Type ℓ} (name : A → String) where
  unfoldable pub insert_by : A → List A → List A
  insert_by x [] = x ∷ []
  insert_by x (y ∷ ys) = if text_leb (name x) (name y) then x ∷ y ∷ ys else y ∷ insert_by x ys

  unfoldable pub sort_by : List A → List A
  unfolding insert_by text_leb
  sort_by [] = []
  sort_by (x ∷ xs) = insert_by x (sort_by xs)

  pub insert_by_comm :
      (a b : A) (l : List A)
      → (name a ≡ name b → a ≡ b)
      → insert_by a (insert_by b l) ≡ insert_by b (insert_by a l)
  unfolding insert_by
  insert_by_comm a b [] sep =
      ground (arith, sep, text_leb_total (name a) (name b), text_leb_antisym (name a) (name b))
  insert_by_comm a b (y ∷ ys) sep = ground (
    arith,
    sep,
    insert_by_comm a b ys sep,
    text_leb_total (name a) (name b),
    text_leb_antisym (name a) (name b),
    text_leb_trans (name a) (name b) (name y),
    text_leb_trans (name b) (name a) (name y),
  )

  -- Items of one name are one item: what the distinct keys of a map give.
  abbrev pub NamesTell : List A → Type ℓ
  NamesTell l = (a b : A) → Memᴰ a l → Memᴰ b l → name a ≡ name b → a ≡ b

  pub sort_by-perm : {l m : List A} → Permᴰ l m → NamesTell l → sort_by l ≡ sort_by m
  unfolding sort_by
  sort_by-perm Permᴰ.nil tell = refl
  sort_by-perm (Permᴰ.cons {a = x} {b = y} e p) tell =
      ap₂ insert_by e (sort_by-perm p (λ a b h k. tell a b (Memᴰ.tail h) (Memᴰ.tail k)))
  sort_by-perm (Permᴰ.swap {a = x} {b = y} {l = l} e f) tell =
      insert_by_comm x y (sort_by l) (tell x y (Memᴰ.head refl) (Memᴰ.tail (Memᴰ.head refl)))
      ∙ ap₂ insert_by f (ap (λ c. insert_by c (sort_by l)) e)
  sort_by-perm (Permᴰ.trans p q) tell =
      sort_by-perm p tell ∙ sort_by-perm q (λ a b h k. tell a b (perm-mem p h) (perm-mem p k))

abbrev pub sort_strings : List String → List String
sort_strings = sort_by (λ s. s)

-- Whatever the order of iteration, the sorted keys are the same.
pub sort_strings-perm : {l m : List String} → Permᴰ l m → sort_strings l ≡ sort_strings m
sort_strings-perm p = sort_by-perm (λ s. s) p (λ a b _ _ e. e)

module _ {ℓ κ} {A : Type ℓ} (P : A → Type κ) (key : A → String) where
  All-insert_by : (x : A) (l : List A) → P x → All P l → All P (insert_by key x l)
  unfolding insert_by
  All-insert_by x [] p h = (p, tt)
  All-insert_by x (y ∷ l) p (q, h) = elim (Bool-cases (text_leb (key x) (key y))) [
    | inl e ↦ simp e (p, (q, h))
    | inr e ↦ simp e (q, All-insert_by x l p h)
  ]

  pub All-sort_by : (l : List A) → All P l → All P (sort_by key l)
  unfolding sort_by
  All-sort_by [] h = tt
  All-sort_by (x ∷ l) (p, h) = All-insert_by x (sort_by key l) p (All-sort_by l h)

module _ {ℓ} {A : Type ℓ} (key : A → String) where
  length-insert_by : (x : A) (l : List A) → length (insert_by key x l) ≡ suc (length l)
  unfolding insert_by
  length-insert_by x [] = omega arith
  length-insert_by x (y ∷ l) = elim (Bool-cases (text_leb (key x) (key y))) [
    | inl e ↦ simp e (omega arith)
    | inr e ↦ simp e (omega (arith, length-insert_by x l))
  ]

  pub length-sort_by : (l : List A) → length (sort_by key l) ≡ length l
  unfolding sort_by
  length-sort_by [] = omega arith
  length-sort_by (x ∷ l) = omega (arith, length-insert_by x (sort_by key l), length-sort_by l)
