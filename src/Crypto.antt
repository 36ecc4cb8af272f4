-- ===== src/Crypto.antt =====
-- packages/openauth/src/domain/crypto.ts. Web Crypto and jose are parameters, the record `Platform`;
-- the constant-time comparison is the program's own.
pub mod TimingSafe
use openauth.Prelude.{
  ℕ, ◌+◌, ◌<◌, String, Bool, true, false, List, [], ◌∷◌, length, eqb, All, Option, if◌then◌else◌,
  ◌≡◌,
}
use Prim.Native.Nat.{bit_or, bit_xor}

-- What the runtime offers.
pub record Platform : Type 0 where
  -- `new TextEncoder().encode`
  pub utf8_encode : String → List ℕ
  -- `base64url.encode(sha256(utf8(s)))`
  pub sha256_b64 : String → String
  -- `base64url.encode` of the left half of `sha256(utf8(s))`
  pub sha256_half_b64 : String → String
  -- `atob` and `decodeURIComponent`; `none` where they throw
  pub atob : String → Option String
  pub decode_uri_component : String → Option String

-- `for (let i = 0; i < a.length; i++) diff |= a[i]! ^ b[i]!`, for two lists of one length
differences : ℕ → List ℕ → List ℕ → ℕ
differences diff [] [] = diff
differences diff [] (y ∷ ys) = diff
differences diff (x ∷ xs) [] = diff
differences diff (x ∷ xs) (y ∷ ys) = differences (bit_or diff (bit_xor x y)) xs ys

unfoldable pub timing_safe_equal : List ℕ → List ℕ → Bool
unfolding differences
timing_safe_equal a b = if eqb (length a) (length b) then eqb (differences 0 a b) 0 else false

unfoldable pub timing_safe_equal_str : Platform → String → String → Bool
unfolding timing_safe_equal
timing_safe_equal_str platform a b =
    timing_safe_equal (platform.utf8_encode a) (platform.utf8_encode b)

abbrev pub IsByte : ℕ → Type 0
IsByte x = x < 256

-- What is documented of UTF-8: it makes bytes, and two texts of code points with the same bytes are
-- the same.
pub record IsUtf8 (platform : Platform) : Type 0 where
  pub bytes : (s : String) → All IsByte (platform.utf8_encode s)
  pub injective : (s t : String) → platform.utf8_encode s ≡ platform.utf8_encode t → s ≡ t
