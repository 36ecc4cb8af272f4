-- ===== src/Prelude/Decimal.antt =====
-- The printing of numbers in JavaScript.
use Prim.Native.Nat.{ℕ, zero, suc, ◌/◌, ◌%◌}
use Prim.Native.Char.{Char}
use Prim.Native.String.{String}
use mathlib.Core.Bool.{true, false}
use openauth.Prelude.Tests.{eqb, ltb, if◌then◌else◌}

abbrev pub decimal_digit : ℕ → Char
decimal_digit n =
    if eqb n 0
    then "0"
    else if eqb n 1
    then "1"
    else if eqb n 2
    then "2"
    else if eqb n 3
    then "3"
    else if eqb n 4
    then "4"
    else if eqb n 5
    then "5"
    else if eqb n 6
    then "6"
    else if eqb n 7
    then "7"
    else if eqb n 8
    then "8"
    else "9"

-- The decimal digits of a number below the fuel, in front of those that are there.
unfoldable pub digits_onto : ℕ → ℕ → String → String
digits_onto zero n s = s
digits_onto (suc fuel) n s = elim (ltb n 10) [
  | true ↦ String.◌∷◌ (decimal_digit n) s
  | false ↦ digits_onto fuel (n / 10) (String.◌∷◌ (decimal_digit (n % 10)) s)
]

-- `n.toString()`
unfoldable pub to_decimal : ℕ → String
unfolding digits_onto
to_decimal n = digits_onto (suc n) n ""
