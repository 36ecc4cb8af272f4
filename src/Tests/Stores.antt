-- ===== src/Tests/Stores.antt =====
-- Witnesses for packages/openauth/src/adapters/memory/token-store.ts.
use openauth.Prelude.{◌+◌, ◌≤◌, [], ◌∷◌, ◌≡◌, refl}
use openauth.Types.Error.{ok}
use openauth.TokenStore.{record_dpop_jti}
use openauth.TokenStore.Runs.{
  codes_won, code_left, codes_saved, saves_code, consumes_code, codes_won-le,
}
use openauth.Tests.Fixtures.{tokens}

recorded : (record_dpop_jti 5 "j1" 100 tokens).0 ≡ ok tt
unfolding record_dpop_jti
recorded = refl

codes_won-le_example :
    codes_won "c1" tokens
      ((5, consumes_code "c1") ∷ (6, saves_code "c1" "text" 10) ∷ (7, consumes_code "c1") ∷ [])
    ≤ code_left "c1" tokens
      + codes_saved "c1"
          ((5, consumes_code "c1") ∷ (6, saves_code "c1" "text" 10) ∷ (7, consumes_code "c1") ∷ [])
codes_won-le_example =
    codes_won-le "c1" tokens
      ((5, consumes_code "c1") ∷ (6, saves_code "c1" "text" 10) ∷ (7, consumes_code "c1") ∷ [])
