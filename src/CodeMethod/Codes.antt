-- ===== src/CodeMethod/Codes.antt =====
-- The magic codes of packages/openauth/src/methods/code.ts: `defaultCode`.
use openauth.Prelude.{ℕ, zero, suc, ◌-◌, ◌*◌, ◌%◌, String, utf16_length, to_decimal}

-- `10 ** length`
unfoldable pub power_of_ten : ℕ → ℕ
power_of_ten zero = 1
power_of_ten (suc n) = 10 * power_of_ten n

-- `s.padStart(n, "0")`
unfoldable pub zeros_onto : ℕ → String → String
zeros_onto zero s = s
zeros_onto (suc n) s = String.◌∷◌ "0" (zeros_onto n s)

unfoldable pub pad_start : ℕ → String → String
unfolding zeros_onto
pad_start n s = zeros_onto (n - utf16_length s) s

-- `draw` is what the four random bytes read as, `view.getUint32(0)`.
unfoldable pub default_code : ℕ → ℕ → String
unfolding power_of_ten to_decimal pad_start
default_code length draw = pad_start length (to_decimal (draw % power_of_ten length))
