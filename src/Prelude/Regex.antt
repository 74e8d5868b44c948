-- ===== src/Prelude/Regex.antt =====
-- Go's package regexp, as far as the program uses it: the syntax of its five anchored patterns,
-- and a matcher by derivatives, which decides the language of a pattern.
pub mod Language
use home_stack.Prelude.{
  ℕ, Bool, true, false, ◌&&◌, ◌||◌, not, List, [], ◌∷◌, leb, eqb, if◌then◌else◌, String, codes,
  code,
}

pub data Regex : Type 0 where
  nothing empty : Regex
  class : (ℕ → Bool) → Regex
  cat alt : Regex → Regex → Regex
  star : Regex → Regex

-- `[x-y]`, one character, and an optional part.
abbrev pub between : ℕ → ℕ → ℕ → Bool
between lo hi c = leb lo c && leb c hi

abbrev pub char : ℕ → Regex
char k = class (eqb k)

abbrev pub optional : Regex → Regex
optional r = alt empty r

unfoldable pub nullable : Regex → Bool
nullable nothing = false
nullable empty = true
nullable (class p) = false
nullable (cat r q) = nullable r && nullable q
nullable (alt r q) = nullable r || nullable q
nullable (star r) = true

-- The pattern of what may follow a character.
unfoldable pub deriv : ℕ → Regex → Regex
unfolding nullable
deriv c nothing = nothing
deriv c empty = nothing
deriv c (class p) = if p c then empty else nothing
deriv c (cat r q) = if nullable r then alt (cat (deriv c r) q) (deriv c q) else cat (deriv c r) q
deriv c (alt r q) = alt (deriv c r) (deriv c q)
deriv c (star r) = cat (deriv c r) (star r)

unfoldable pub accepts : Regex → List ℕ → Bool
unfolding deriv
accepts r [] = nullable r
accepts r (c ∷ s) = accepts (deriv c r) s

-- `MatchString` of a pattern between `^` and `$`.
unfoldable pub match_string : Regex → String → Bool
unfolding accepts
match_string r s = accepts r (codes s)
