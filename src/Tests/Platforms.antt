-- ===== src/Tests/Platforms.antt =====
-- A platform whose encoding has the documented laws of UTF-8: it makes bytes, and loses nothing. Its
-- hash is the identity, which is enough to run the code of packages/openauth/src/domain on.
use Prim.Native.Char.{Char, code}
use openauth.Prelude.{
  ℕ, zero, suc, ◌/◌, ◌%◌, String, some, List, [], ◌∷◌, ◌≡◌, refl, arith, All, ap,
}
use text.Mathlib.TextEquality.{Char-path}
use openauth.Crypto.{Platform, IsByte, IsUtf8}

unary : ℕ → List ℕ → List ℕ
unary zero rest = 0 ∷ rest
unary (suc n) rest = 1 ∷ unary n rest

-- the low byte of a code point, and the rest of it in unary
unfoldable pub encode : String → List ℕ
unfolding unary
encode String.[] = []
encode (String.◌∷◌ c s) = code c % 256 ∷ unary (code c / 256) (encode s)

abbrev pub platform : Platform
platform = record {
  utf8_encode = encode;
  sha256_b64 = λ s. s;
  sha256_half_b64 = λ s. s;
  atob = λ s. some s;
  decode_uri_component = λ s. some s;
}

unary-IsByte : (n : ℕ) (xs : List ℕ) → All IsByte xs → All IsByte (unary n xs)
unfolding unary
unary-IsByte zero xs h = (omega arith, h)
unary-IsByte (suc n) xs h = (omega arith, unary-IsByte n xs h)

encode-IsByte : (s : String) → All IsByte (encode s)
unfolding encode
encode-IsByte String.[] = tt
encode-IsByte (String.◌∷◌ c s) =
    (omega arith, unary-IsByte (code c / 256) (encode s) (encode-IsByte s))

unary_injective : (n m : ℕ) (xs ys : List ℕ) → unary n xs ≡ unary m ys → (n ≡ m) × (xs ≡ ys)
unfolding unary
unary_injective zero zero xs ys h = (refl, ground arith)
unary_injective zero (suc m) xs ys h = absurd (ground arith)
unary_injective (suc n) zero xs ys h = absurd (ground arith)
unary_injective (suc n) (suc m) xs ys h =
    let (a, b) = unary_injective n m xs ys (ground arith) in (ap suc a, b)

code_lem : (a b : ℕ) → a % 256 ≡ b % 256 → a / 256 ≡ b / 256 → a ≡ b
code_lem a b h k = omega arith

cons_lem : (c d : Char) (s t : String) → c ≡ d → s ≡ t → String.◌∷◌ c s ≡ String.◌∷◌ d t
cons_lem c d s t h k i = String.◌∷◌ (h i) (k i)

encode_injective : (s t : String) → encode s ≡ encode t → s ≡ t
unfolding encode
encode_injective String.[] String.[] h = refl
encode_injective String.[] (String.◌∷◌ d t) h = absurd (cc)
encode_injective (String.◌∷◌ c s) String.[] h = absurd (cc)
encode_injective (String.◌∷◌ c s) (String.◌∷◌ d t) h =
    let (high, rest) =
      unary_injective (code c / 256) (code d / 256) (encode s) (encode t) (ground arith) in
    cons_lem c d s t (Char-path c d (code_lem (code c) (code d) (ground arith) high))
      (encode_injective s t rest)

pub platform-IsUtf8 : IsUtf8 platform
platform-IsUtf8 = record { bytes = encode-IsByte; injective = encode_injective }
