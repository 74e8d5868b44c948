-- ===== src/Events/Redact.antt =====
-- portable/home-stack/admin/events.go, `redactOutput`. The secret pattern is matched by hand: at one
-- place of a text its alternatives begin with different characters, and no part of it can take what
-- the next part needs, so that there is one way to match and nothing to try again.
pub mod Bounds
pub mod Secrets
pub mod Hidden
use Prim.Native.Char.{Char, code}
use Prim.Native.String
use Prim.Native.String.{String}
use home_stack.Prelude.{
  ℕ, zero, suc, ◌+◌, ◌-◌, Bool, true, false, ◌&&◌, ◌||◌, not, List, [], ◌∷◌, Option, none, some,
  ◌==◌, ◌<>◌, leb, ltb, eqb, to_lower, if◌then◌else◌, codes, cut_prefix, is_some, length,
}

-- `(?i)`: a letter's simple folds, U+212A and U+017F among them.
abbrev folded : ℕ → ℕ
folded c = if eqb c 8490 then b'k' else if eqb c 383 then b's' else to_lower c

-- A part of the pattern that matched: its number of characters, and what follows it.
abbrev Matched : Type 0
Matched = Option (ℕ × String)

abbrev more : ℕ → Matched → Matched
more n none = none
more n (some (m, rest)) = some (n + m, rest)

-- One part, then another.
abbrev followed : Matched → (String → Matched) → Matched
followed none next = none
followed (some (n, rest)) next = more n (next rest)

-- One character that passes a test.
unfoldable one : (ℕ → Bool) → String → Matched
one p String.[] = none
one p (String.◌∷◌ c s) = if p (code c) then some (1, s) else none

unfoldable word : List ℕ → String → Matched
word [] s = some (0, s)
word (w ∷ ws) s = followed (one (λ c. eqb (folded c) w) s) (word ws)

abbrev is_white : ℕ → Bool
is_white c = eqb c 32 || eqb c 9 || eqb c 10 || eqb c 12 || eqb c 13

-- The length of the longest run of characters that pass a test, and what follows it.
unfoldable span : (ℕ → Bool) → String → ℕ
span p String.[] = 0
span p (String.◌∷◌ c s) = elim (p (code c)) [ true ↦ span p s + 1 | false ↦ 0 ]

unfoldable past : (ℕ → Bool) → String → String
past p String.[] = ""
past p (String.◌∷◌ c s) = elim (p (code c)) [ true ↦ past p s | false ↦ String.◌∷◌ c s ]

abbrev many : (ℕ → Bool) → String → Matched
many p s = some (span p s, past p s)

abbrev first_of : Matched → Matched → Matched
first_of none other = other
first_of (some m) other = some m

-- `api[_-]?key`.
abbrev api_key : String → Matched
api_key s = followed (word (codes "api") s) (λ rest.
    first_of (followed (one (λ c. eqb c b'_' || eqb c b'-') rest) (word (codes "key")))
      (word (codes "key") rest))

unfoldable keyword : String → Matched
keyword s = first_of (word (codes "token") s) (
    first_of (word (codes "password") s)
      (first_of (word (codes "secret") s) (first_of (api_key s) (word (codes "key") s))))

-- `\s*[:=]\s*` or `"\s*:\s*"`.
unfoldable separator : String → Matched
separator s =
    first_of
      (followed (followed (many is_white s) (one (λ c. eqb c b':' || eqb c b'='))) (many is_white))
      (followed
        (followed
          (followed (followed (one (λ c. eqb c b'"') s) (many is_white)) (one (λ c. eqb c b':')))
          (many is_white))
        (one (λ c. eqb c b'"')))

-- `[^\s,"'}]`.
abbrev in_value : ℕ → Bool
in_value c = not (is_white c || eqb c b',' || eqb c b'"' || eqb c b'\'' || eqb c b'}')

-- How many characters of the first two groups, and of the third, stand where the text begins.
abbrev secret_after : Matched → Option (ℕ × ℕ)
secret_after none = none
secret_after (some (n, rest)) =
    let value = span in_value rest in if eqb value 0 then none else some (n, value)

unfoldable secret_at : String → Option (ℕ × ℕ)
secret_at s = secret_after (followed (keyword s) separator)

-- Where the replacement stands: in the first two groups, with so many characters of them and of the
-- third group to come, or after them, with so many characters to leave out.
data Place : Type 0 where
  keeping : ℕ → ℕ → Place
  dropping : ℕ → Place

-- `ReplaceAllString` by `$1$2[REDACTED]`.
unfoldable redact_from : Place → String → String
redact_from place String.[] = ""
redact_from (keeping (suc k) d) (String.◌∷◌ c s) = String.◌∷◌ c (redact_from (keeping k d) s)
redact_from (keeping zero d) (String.◌∷◌ c s) = "[REDACTED]" <> redact_from (dropping (d - 1)) s
redact_from (dropping (suc d)) (String.◌∷◌ c s) = redact_from (dropping d) s
redact_from (dropping zero) (String.◌∷◌ c s) = elim (secret_at (String.◌∷◌ c s)) [
  | none ↦ String.◌∷◌ c (redact_from (dropping 0) s)
  | some (k, d) ↦ String.◌∷◌ c (redact_from (keeping (k - 1) d) s)
]

-- `strings.ReplaceAll` of a text that is not empty, so many characters of it still to leave out.
unfoldable replace_from : ℕ → String → String → String
replace_from n String.[] value = ""
replace_from (suc n) (String.◌∷◌ c s) value = replace_from n s value
replace_from zero (String.◌∷◌ c s) value = elim (is_some (cut_prefix (String.◌∷◌ c s) value)) [
  | true ↦ "[REDACTED]" <> replace_from (length (codes value) - 1) s value
  | false ↦ String.◌∷◌ c (replace_from 0 s value)
]

abbrev redact_value : String → String → String
redact_value s value = if value == "" then s else replace_from 0 s value

-- The bytes of a character, and of a text.
abbrev width : ℕ → ℕ
width c = if ltb c 128 then 1 else if ltb c 2048 then 2 else if ltb c 65536 then 3 else 4

abbrev byte_length : String → ℕ
byte_length String.[] = 0
byte_length (String.◌∷◌ c s) = width (code c) + byte_length s

abbrev strays : ℕ → String
strays zero = ""
strays (suc n) = "�" <> strays n

-- The first bytes of a text. Of a character that they cut, each byte is shown as encoding/json shows it.
unfoldable cut_bytes : ℕ → String → String
cut_bytes n String.[] = ""
cut_bytes n (String.◌∷◌ c s) =
    let rest = cut_bytes (n - width (code c)) s in
    if leb (width (code c)) n then String.◌∷◌ c rest else strays n

abbrev cut_long : String → String
cut_long s = if ltb 800 (byte_length s) then cut_bytes 800 s <> "…" else s

-- The text with its secrets replaced; `getenv` is os.Getenv.
unfoldable without_secrets : (String → String) → String → String
without_secrets getenv s =
    redact_value
      (redact_value (redact_value (redact_from (dropping 0) s) (getenv "HOME_STACK_ADMIN_PASSWORD"))
        (getenv "HOME_STACK_CLOUDFLARE_API_TOKEN"))
      (getenv "CLOUDFLARE_API_TOKEN")

pub redact_output : (String → String) → String → String
redact_output getenv s = cut_long (without_secrets getenv s)
