-- ===== src/Token/Exchange/Once.antt =====
-- A code buys tokens at most once. About packages/openauth/src/domain/token.ts.
use openauth.Prelude.{ℕ, String, none, ◌≡◌, arith, eq_refl}
use openauth.Types.Error.{err}
use openauth.Types.Effect.{lift, ◌>>=◌}
use openauth.Types.Effect.Keeps.{Keeps, Keeps-bind, Keeps-lift, Keeps-continue, keeps_rules}
use openauth.Types.Tenant.{ClientConfig}
use openauth.Types.Token.{CodePayload}
use openauth.TokenStore.{TokenStore, consume_code, code_unknown}
use openauth.World.{Env, World, SuccessMapInput, with_tokens}
use openauth.Token.Mint.{MintArgs, mint_tokens}
use openauth.Token.Mint.Frame.{mint_tokens-codes}
use openauth.Token.Exchange.{
  TokenAuthCodeRequest, decrypted, request_check, subject_claim, grant_code, with_tenant,
  exchange_payload, exchange_code,
}
use openauth.Token.Exchange.Sound.{request_check-unchanged, subject_claim-tokens}

-- The code is not in the store.
abbrev IsSpent : String → World → Type 0
IsSpent code w = w.tokens.codes code ≡ none

module _ (env : Env) (code : String) where
  Keeps-mint_tokens : (args : MintArgs) → Keeps (IsSpent code) (mint_tokens env args)
  Keeps-mint_tokens args = record { at = λ w h. rw (mint_tokens-codes env args w) h }

  Keeps-request_check :
      (req : TokenAuthCodeRequest) (payload : CodePayload) (client : ClientConfig)
      → Keeps (IsSpent code) (request_check env req payload client)
  Keeps-request_check req payload client = record {
    at = λ w h. rw (request_check-unchanged env req payload client w) h;
  }

  Keeps-subject_claim :
      (input : SuccessMapInput) (client_id : String)
      → Keeps (IsSpent code) (subject_claim env input client_id)
  Keeps-subject_claim input client_id = record {
    at = λ w h. rw (subject_claim-tokens env input client_id w) h;
  }

ruleset spent_rules = (keeps_rules, Keeps-mint_tokens, Keeps-request_check, Keeps-subject_claim)

Keeps-exchange_payload :
    (env : Env) (code : String) (req : TokenAuthCodeRequest) (payload : CodePayload)
    → Keeps (IsSpent code) (exchange_payload env req payload)
unfolding exchange_payload with_tenant grant_code
Keeps-exchange_payload env code req payload = search spent_rules depth 9

consume_code-IsSpent :
    (now : ℕ) (code : String) (s : TokenStore) → (consume_code now code s).1.codes code ≡ none
unfolding consume_code
consume_code-IsSpent now code s = ground (arith, eq_refl code)

exchange_code-IsSpent :
    (env : Env) (req : TokenAuthCodeRequest) (w : World)
    → IsSpent req.code (exchange_code env req w).1
unfolding exchange_code
exchange_code-IsSpent env req w =
    Keeps-continue (consume_code env.now req.code w.tokens).0
      (λ c. lift (decrypted env c) >>= exchange_payload env req)
      (with_tokens (consume_code env.now req.code) w).1
      (consume_code-IsSpent env.now req.code w.tokens)
      (λ c. Keeps-bind _ _ (Keeps-lift _) (Keeps-exchange_payload env req.code req))

consume_code-unknown :
    (now : ℕ) (code : String) (s : TokenStore)
    → s.codes code ≡ none
    → (consume_code now code s).0 ≡ err code_unknown
unfolding consume_code
consume_code-unknown now code s h = ground arith

exchange_code-unknown :
    (env : Env) (req : TokenAuthCodeRequest) (w : World)
    → (consume_code env.now req.code w.tokens).0 ≡ err code_unknown
    → (exchange_code env req w).0 ≡ err code_unknown
unfolding exchange_code
exchange_code-unknown env req w h = rw h

-- After any exchange of a code, failed or not, every later exchange of that code is refused as
-- unknown or already consumed.
pub exchange_code_twice :
    (env later : Env) (req again : TokenAuthCodeRequest) (w : World)
    → again.code ≡ req.code
    → (exchange_code later again (exchange_code env req w).1).0 ≡ err code_unknown
exchange_code_twice env later req again w same =
    exchange_code-unknown later again (exchange_code env req w).1 (
      consume_code-unknown later.now again.code (exchange_code env req w).1.tokens
        (rw same (exchange_code-IsSpent env req w)))
