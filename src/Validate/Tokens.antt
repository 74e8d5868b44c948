-- ===== src/Validate/Tokens.antt =====
-- engine.go, the patterns of names and hosts and the checks of single texts.
use home_stack.Prelude.{
  ℕ, Bool, true, false, ◌&&◌, ◌||◌, not, String, ◌==◌, ◌<>◌, eqb, if◌then◌else◌, Result, ok, err,
  ◌>>◌, refuse_if, contains_any, has_prefix, has_suffix,
}
use home_stack.Prelude.Regex.{Regex, class, cat, alt, star, between, char, optional, match_string}
use home_stack.Validate.Errors.{
  TokenError, required, control_characters, whitespace, ServiceError, missing_host, invalid_host,
  invalid_subdomain,
}

-- `[a-z0-9]`, and the same with a dash, or a dot and a dash.
abbrev pub lower_alnum : ℕ → Bool
lower_alnum c = between b'a' b'z' c || between b'0' b'9' c

abbrev pub name_char : ℕ → Bool
name_char c = lower_alnum c || eqb c b'-'

abbrev pub host_char : ℕ → Bool
host_char c = lower_alnum c || eqb c b'.' || eqb c b'-'

abbrev pub key_start : ℕ → Bool
key_start c = between b'A' b'Z' c || eqb c b'_'

abbrev pub key_char : ℕ → Bool
key_char c = key_start c || between b'0' b'9' c

abbrev pub identifier_start : ℕ → Bool
identifier_start c = between b'A' b'Z' c || between b'a' b'z' c || between b'0' b'9' c

abbrev pub identifier_char : ℕ → Bool
identifier_char c = identifier_start c || eqb c b'.' || eqb c b'-'

-- `^[a-z0-9][a-z0-9-]*$`.
abbrev pub service_name_pattern : Regex
service_name_pattern = cat (class lower_alnum) (star (class name_char))

-- `^[A-Z_][A-Z0-9_]*$`.
abbrev pub env_key_pattern : Regex
env_key_pattern = cat (class key_start) (star (class key_char))

-- `[a-z0-9][a-z0-9.-]*[a-z0-9]`.
abbrev pub dotted : Regex
dotted = cat (class lower_alnum) (cat (star (class host_char)) (class lower_alnum))

abbrev pub star_dot : Regex
star_dot = cat (char b'*') (char b'.')

-- `^(\*\.)?[a-z0-9][a-z0-9.-]*[a-z0-9]$`.
abbrev pub host_pattern : Regex
host_pattern = cat (optional star_dot) dotted

-- `^[A-Za-z0-9][A-Za-z0-9.-]*$`.
abbrev pub identifier_pattern : Regex
identifier_pattern = cat (class identifier_start) (star (class identifier_char))

-- `^(\*|\*\.[a-z0-9][a-z0-9.-]*[a-z0-9]|[a-z0-9][a-z0-9.-]*[a-z0-9]|[a-z0-9])$`.
abbrev pub subdomain_pattern : Regex
subdomain_pattern = alt (char b'*') (alt (cat star_dot dotted) (alt dotted (class lower_alnum)))

-- "\r\n\x00".
abbrev pub is_control : ℕ → Bool
is_control c = eqb c 13 || eqb c 10 || eqb c 0

-- " \t".
abbrev pub is_blank : ℕ → Bool
is_blank c = eqb c 32 || eqb c 9

-- "\r\n\t ".
abbrev pub is_space : ℕ → Bool
is_space c = eqb c 13 || eqb c 10 || eqb c 9 || eqb c 32

unfoldable pub validate_display_token : String → String → Result TokenError (Unit {0})
validate_display_token field value =
    refuse_if (contains_any is_control value) (control_characters field)

unfoldable pub validate_token : String → String → Bool → Result TokenError (Unit {0})
validate_token field value allow_empty =
    if value == ""
    then (if allow_empty then ok tt else err (required field))
    else refuse_if (contains_any is_control value) (control_characters field)

unfoldable pub validate_caddy_token : String → String → Bool → Result TokenError (Unit {0})
unfolding validate_token
validate_caddy_token field value allow_empty = do
  validate_token field value allow_empty
  refuse_if (not (value == "") && contains_any is_blank value) (whitespace field)

unfoldable pub validate_host : String → Result ServiceError (Unit {0})
unfolding match_string contains_any
validate_host host = do
  refuse_if (host == "") missing_host
  refuse_if (contains_any is_space host || not (match_string host_pattern host)) (invalid_host host)

unfoldable pub validate_subdomain : String → Result ServiceError (Unit {0})
unfolding match_string
validate_subdomain sub =
    refuse_if (not (match_string subdomain_pattern sub)) (invalid_subdomain sub)

unfoldable pub host_overlaps_parent : String → String → Bool
host_overlaps_parent host parent =
    if host == parent
    then true
    else if has_suffix host ("." <> parent)
    then true
    else if has_prefix host "*." && has_suffix host parent
    then true
    else false
