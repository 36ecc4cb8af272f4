-- ===== src/TokenStore/Codes.antt =====
-- Authorization codes: single use, lifetime, and independence of one another. About
-- packages/openauth/src/adapters/memory/token-store.ts.
use openauth.Prelude.{
  ℕ, ◌+◌, ◌≤◌, ◌<◌, String, ◌≡◌, ◌≢◌, arith, eq_iff, eq_refl, leb, if◌then◌else◌,
}
use openauth.Types.Error.{ok, err}
use openauth.TokenStore.{
  TokenStore, auth_code_ttl_ms, code_unknown, code_expired, save_code, consume_code,
}

-- A second consumeCode of a code answers that it is unknown or already consumed, whatever the
-- first returned.
pub consume_code_twice :
    (now later : ℕ) (code : String) (s : TokenStore)
    → (consume_code later code (consume_code now code s).1).0 ≡ err code_unknown
unfolding consume_code
consume_code_twice now later code s = ground (arith, eq_refl code)

-- A code saved with a lifetime of 1 to 60,000 milliseconds returns its ciphertext before the
-- lifetime is over and is expired from then on.
pub consume_code-save_code :
    (now later ttl : ℕ) (code ciphertext : String) (s : TokenStore)
    → 0 < ttl
    → ttl ≤ auth_code_ttl_ms
    → (consume_code later code (save_code now code ciphertext ttl s).1).0
      ≡ (if leb (now + ttl) later then err code_expired else ok ciphertext)
unfolding consume_code save_code
consume_code-save_code now later ttl code ciphertext s h k = ground (arith, eq_refl code)

-- The calls for one code do not touch another.
pub consume_code_ne :
    (now : ℕ) (code other : String) (s : TokenStore)
    → code ≢ other
    → (consume_code now code s).1.codes other ≡ s.codes other
unfolding consume_code
consume_code_ne now code other s h = ground (arith, eq_iff code other)
