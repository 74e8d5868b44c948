-- ===== src/Prelude/Decimal.antt =====
-- `%d` of Go's fmt, on numbers that are not negative.
use Prim.Native.Nat.{ℕ, zero, suc, ◌/◌, ◌%◌}
use Prim.Native.String.{String}
use mathlib.Core.Path.{◌≡◌, refl}
use home_stack.Prelude.{◌<>◌, ltb, eqb, true, false, if◌then◌else◌}

abbrev digit : ℕ → String
digit n =
    if eqb n 0
    then "0"
    else if eqb n 1
    then "1"
    else if eqb n 2
    then "2"
    else if eqb n 3
    then "3"
    else if eqb n 4
    then "4"
    else if eqb n 5
    then "5"
    else if eqb n 6
    then "6"
    else if eqb n 7
    then "7"
    else if eqb n 8
    then "8"
    else "9"

-- A number has no more digits than its value, which is the fuel.
digits_from : ℕ → ℕ → String
digits_from zero n = digit n
digits_from (suc fuel) n = elim (ltb n 10) [
  | true ↦ digit n
  | false ↦ digits_from fuel (n / 10) <> digit (n % 10)
]

unfoldable pub decimal : ℕ → String
unfolding digits_from
decimal n = digits_from n n

decimal_test : ◌≡◌ {A = String} (decimal 3600) "3600"
unfolding decimal
decimal_test = refl
