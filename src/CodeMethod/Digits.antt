-- ===== src/CodeMethod/Digits.antt =====
-- The shape of the codes of packages/openauth/src/methods/code.ts.
use openauth.Prelude.{
  ℕ, zero, suc, ◌+◌, ◌-◌, ◌*◌, ◌/◌, ◌%◌, ◌≤◌, ◌<◌, String, Bool, true, false, ◌&&◌, leb, ltb, eqb,
  ◌≡◌, refl, ap, ◌∙◌, arith, Bool-cases, inl, inr, utf16_length, decimal_digit, digits_onto,
  to_decimal, if◌then◌else◌,
}
use Prim.Native.Char.{Char, code}
use openauth.CodeMethod.Codes.{power_of_ten, zeros_onto, pad_start, default_code}

-- all of the characters are decimal digits
unfoldable pub all_digits : String → Bool
all_digits String.[] = true
all_digits (String.◌∷◌ c s) = (leb 48 (code c) && leb (code c) 57) && all_digits s

either : (P : Char → Type 0) (b : Bool) (c d : Char) → P c → P d → P (if b then c else d)
either P true c d h k = h
either P false c d h k = k

decimal_digit-range :
    (n : ℕ) → (leb 48 (code (decimal_digit n)) && leb (code (decimal_digit n)) 57) ≡ true
decimal_digit-range n =
    let P = λ (c : Char). (leb 48 (code c) && leb (code c) 57) ≡ true in
    either P (eqb n 0) "0" _ refl (
      either P (eqb n 1) "1" _ refl (
        either P (eqb n 2) "2" _ refl (
          either P (eqb n 3) "3" _ refl (
            either P (eqb n 4) "4" _ refl (
              either P (eqb n 5) "5" _ refl (
                either P (eqb n 6) "6" _ refl
                  (either P (eqb n 7) "7" _ refl (either P (eqb n 8) "8" _ refl refl))))))))

all_digits-decimal_digit :
    (n : ℕ) (s : String) → all_digits s ≡ true → all_digits (String.◌∷◌ (decimal_digit n) s) ≡ true
unfolding all_digits
all_digits-decimal_digit n s h = rw (decimal_digit-range n) h

-- The number that decimal digits stand for, after those that were read.
unfoldable pub number_from : ℕ → String → ℕ
number_from n String.[] = n
number_from n (String.◌∷◌ c s) = number_from (n * 10 + (code c - 48)) s

chosen :
    (P : Char → Type 0) (b : Bool) (c d : Char)
    → (b ≡ true → P c)
    → (b ≡ false → P d)
    → P (if b then c else d)
chosen P true c d h k = h refl
chosen P false c d h k = k refl

decimal_digit-number : (n : ℕ) → n < 10 → code (decimal_digit n) - 48 ≡ n
decimal_digit-number n h =
    let P = λ (c : Char). code c - 48 ≡ n in
    chosen P (eqb n 0) "0" _ (λ e. ground arith)
      (λ n0.
        chosen P (eqb n 1) "1" _ (λ e. ground arith)
          (λ n1.
            chosen P (eqb n 2) "2" _ (λ e. ground arith)
              (λ n2.
                chosen P (eqb n 3) "3" _ (λ e. ground arith)
                  (λ n3.
                    chosen P (eqb n 4) "4" _ (λ e. ground arith)
                      (λ n4.
                        chosen P (eqb n 5) "5" _ (λ e. ground arith)
                          (λ n5.
                            chosen P (eqb n 6) "6" _ (λ e. ground arith)
                              (λ n6.
                                chosen P (eqb n 7) "7" _ (λ e. ground arith)
                                  (λ n7.
                                    chosen P (eqb n 8) "8" _ (λ e. ground arith)
                                      (λ n8. ground arith)))))))))

digits_onto-number :
    (fuel n : ℕ) (s : String) → n < fuel → number_from 0 (digits_onto fuel n s) ≡ number_from n s
unfolding digits_onto number_from
digits_onto-number zero n s f = absurd (omega arith)
digits_onto-number (suc fuel) n s f = elim (Bool-cases (ltb n 10)) [
  | inl e ↦
      let d : 0 * 10 + (code (decimal_digit n) - 48) ≡ n =
        omega (arith, decimal_digit-number n (ground arith)) in
      rw (digits_onto, e) (ap (λ m. number_from m s) d)
  | inr e ↦
      let ten : 10 ≤ n = ground arith in
      let d : (n / 10) * 10 + (code (decimal_digit (n % 10)) - 48) ≡ n =
        omega (arith, decimal_digit-number (n % 10) (omega arith)) in
      rw (digits_onto, e)
        (digits_onto-number fuel (n / 10) (String.◌∷◌ (decimal_digit (n % 10)) s) (omega arith)
          ∙ ap (λ m. number_from m s) d)
]

zeros_onto-number : (n : ℕ) (s : String) → number_from 0 (zeros_onto n s) ≡ number_from 0 s
unfolding zeros_onto number_from
zeros_onto-number zero s = refl
zeros_onto-number (suc n) s = zeros_onto-number n s

digits_onto-all_digits :
    (fuel n : ℕ) (s : String) → all_digits s ≡ true → all_digits (digits_onto fuel n s) ≡ true
unfolding digits_onto
digits_onto-all_digits zero n s h = h
digits_onto-all_digits (suc fuel) n s h = elim (Bool-cases (ltb n 10)) [
  | inl e ↦ rw (digits_onto, e) (all_digits-decimal_digit n s h)
  | inr e ↦
      rw (digits_onto, e)
        (digits_onto-all_digits fuel (n / 10) _ (all_digits-decimal_digit (n % 10) s h))
]

decimal_digit-unit : (n : ℕ) → ltb (code (decimal_digit n)) 0x10000 ≡ true
decimal_digit-unit n =
    let P = λ (c : Char). ltb (code c) 0x10000 ≡ true in
    either P (eqb n 0) "0" _ refl (
      either P (eqb n 1) "1" _ refl (
        either P (eqb n 2) "2" _ refl (
          either P (eqb n 3) "3" _ refl (
            either P (eqb n 4) "4" _ refl (
              either P (eqb n 5) "5" _ refl (
                either P (eqb n 6) "6" _ refl
                  (either P (eqb n 7) "7" _ refl (either P (eqb n 8) "8" _ refl refl))))))))

utf16_length-decimal_digit :
    (n : ℕ) (s : String) → utf16_length (String.◌∷◌ (decimal_digit n) s) ≡ 1 + utf16_length s
unfolding utf16_length
utf16_length-decimal_digit n s = rw (decimal_digit-unit n) refl

-- A number below a power of ten has at most so many digits.
digits_onto-length :
    (k fuel n : ℕ) (s : String)
    → n < power_of_ten (suc k)
    → n < fuel
    → utf16_length (digits_onto fuel n s) ≤ suc k + utf16_length s
unfolding digits_onto power_of_ten
digits_onto-length k zero n s h f = absurd (omega arith)
digits_onto-length zero (suc fuel) n s h f = elim (Bool-cases (ltb n 10)) [
  | inl e ↦ rw (digits_onto, e) (rw (utf16_length-decimal_digit n s) (omega arith))
  | inr e ↦ absurd (ground arith)
]
digits_onto-length (suc k) (suc fuel) n s h f = elim (Bool-cases (ltb n 10)) [
  | inl e ↦ rw (digits_onto, e) (rw (utf16_length-decimal_digit n s) (omega arith))
  | inr e ↦
      let ten : 10 ≤ n = ground arith in
      let rest =
        digits_onto-length k fuel (n / 10) (String.◌∷◌ (decimal_digit (n % 10)) s) (omega arith)
          (omega arith) in
      let one = utf16_length-decimal_digit (n % 10) s in
      let short : utf16_length (digits_onto fuel (n / 10) (String.◌∷◌ (decimal_digit (n % 10)) s))
          ≤ suc (suc k) + utf16_length s =
        omega (arith, rest, one) in
      rw (digits_onto, e) short
]

zeros_onto-length : (n : ℕ) (s : String) → utf16_length (zeros_onto n s) ≡ n + utf16_length s
unfolding zeros_onto utf16_length
zeros_onto-length zero s = omega arith
zeros_onto-length (suc n) s = let rest = zeros_onto-length n s in omega arith

zeros_onto-all_digits :
    (n : ℕ) (s : String) → all_digits s ≡ true → all_digits (zeros_onto n s) ≡ true
unfolding zeros_onto all_digits
zeros_onto-all_digits zero s h = h
zeros_onto-all_digits (suc n) s h = zeros_onto-all_digits n s h

power_of_ten-positive : (n : ℕ) → 0 < power_of_ten n
unfolding power_of_ten
power_of_ten-positive zero = omega arith
power_of_ten-positive (suc n) = let rest = power_of_ten-positive n in omega arith

-- The text is so many decimal digits, which stand for the number.
pub record Prints (text : String) (units number : ℕ) : Type 0 where
  pub sized : utf16_length text ≡ units
  pub decimal : all_digits text ≡ true
  pub read : number_from 0 text ≡ number

pad_start-Prints :
    (n m number : ℕ) (s : String) → m ≤ n → Prints s m number → Prints (pad_start n s) n number
unfolding pad_start
pad_start-Prints n m number s h p =
    let l = zeros_onto-length (n - utf16_length s) s in
    record {
      sized = omega (arith, l, p.sized);
      decimal = zeros_onto-all_digits (n - utf16_length s) s p.decimal;
      read = zeros_onto-number (n - utf16_length s) s ∙ p.read;
    }

to_decimal-length : (k n : ℕ) → n < power_of_ten (suc k) → utf16_length (to_decimal n) ≤ suc k
unfolding to_decimal utf16_length
to_decimal-length k n h =
    let short = digits_onto-length k (suc n) n "" h (omega arith) in omega (arith, short)

to_decimal-Prints : (n : ℕ) → Prints (to_decimal n) (utf16_length (to_decimal n)) n
unfolding to_decimal all_digits number_from
to_decimal-Prints n = record {
  sized = refl;
  decimal = digits_onto-all_digits (suc n) n "" refl;
  read = digits_onto-number (suc n) n "" (omega arith);
}

below_power : (draw n : ℕ) → draw % power_of_ten n < power_of_ten n
below_power draw n = let positive = power_of_ten-positive n in grind arith

-- For a length of at least one, a default code has exactly that many characters, all of them are
-- decimal digits, and they stand for the random number modulo that power of ten.
pub default_code-Prints :
    (length draw : ℕ)
    → 1 ≤ length
    → Prints (default_code length draw) length (draw % power_of_ten length)
unfolding default_code
default_code-Prints zero draw h = absurd (omega arith)
default_code-Prints (suc k) draw h =
    let n = draw % power_of_ten (suc k) in
    pad_start-Prints (suc k) _ n (to_decimal n) (to_decimal-length k n (below_power draw (suc k)))
      (to_decimal-Prints n)
