-- ===== src/Token/Mint/Frame.antt =====
-- What minting leaves alone: the authorization codes and the proofs' `jti` values. About
-- packages/openauth/src/domain/token.ts.
use openauth.Prelude.{String, ◌≡◌, refl, arith}
use openauth.Types.Error.{Result, ok, err}
use openauth.Types.Effect.{continue}
use openauth.TokenStore.{save_refresh}
use openauth.World.{SigningKey, Env, World}
use openauth.Token.Mint.{MintArgs, prepare, issue, mint_tokens}

module _ (env : Env) (args : MintArgs) where
  issue-codes :
      (p : String × String × SigningKey) (w : World)
      → (issue env args p w).1.tokens.codes ≡ w.tokens.codes
  unfolding issue save_refresh
  issue-codes (subject_id, token, key) w = ground arith

  continue-codes :
      (p : Result (String × String × SigningKey)) (w : World)
      → (continue p (issue env args) w).1.tokens.codes ≡ w.tokens.codes
  continue-codes (ok p) w = issue-codes p w
  continue-codes (err e) w = refl

  pub mint_tokens-codes : (w : World) → (mint_tokens env args w).1.tokens.codes ≡ w.tokens.codes
  unfolding mint_tokens
  mint_tokens-codes w = continue-codes (prepare env args) w
