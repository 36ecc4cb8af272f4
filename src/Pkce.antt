-- ===== src/Pkce.antt =====
-- packages/openauth/src/domain/pkce.ts
use openauth.Prelude.{
  ◌≤◌, String, Bool, true, false, ◌||◌, ltb, utf16_length, if◌then◌else◌, ◌≡◌, ◌↔◌, arith,
}
use openauth.Crypto.{Platform, IsUtf8, timing_safe_equal_str}
use openauth.Crypto.TimingSafe.{timing_safe_equal_str_iff}

unfoldable pub s256_challenge : Platform → String → String
s256_challenge platform verifier = platform.sha256_b64 verifier

unfoldable pub validate_pkce : Platform → String → String → Bool
validate_pkce platform verifier challenge =
    if ltb (utf16_length verifier) 43 || ltb 128 (utf16_length verifier)
    then false
    else timing_safe_equal_str platform (s256_challenge platform verifier) challenge

-- Over an encoding that keeps the laws of UTF-8, a verifier is accepted exactly when it has 43 to
-- 128 code units and its S256 challenge is the stored one.
pub validate_pkce_iff :
    (platform : Platform) (verifier challenge : String)
    → IsUtf8 platform
    → (validate_pkce platform verifier challenge ≡ true) ↔ (
        (43 ≤ utf16_length verifier)
        × (utf16_length verifier ≤ 128)
        × (s256_challenge platform verifier ≡ challenge))
unfolding validate_pkce
validate_pkce_iff platform verifier challenge u =
    let h = timing_safe_equal_str_iff platform (s256_challenge platform verifier) challenge u in
    (λ e. (ground arith, ground arith, h.0 (ground arith)), λ e. ground (arith, h.1 e.2))
