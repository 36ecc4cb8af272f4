-- ===== src/TokenExchange/Sound.antt =====
-- What a token exchange guarantees. About packages/openauth/src/domain/token-exchange.ts.
use openauth.Prelude.{
  ◌/◌, String, true, false, ◌∙◌, words, if◌then◌else◌, Option-cases, Option, none, some, List, [],
  ◌∷◌, ◌==◌, ◌≡◌, refl, arith, eq_iff, includes, All, get_or_else, Bool-cases, inl, inr, sym,
}
use openauth.Types.Error.{ok, or_fail, or_fail-eq-ok, Result-cases}
use openauth.Types.Effect.{lift, after_check, after_bind}
use openauth.Types.Tenant.{TenantConfig, ClientConfig, find_client}
use openauth.Types.Token.{SubjectClaim, AccessTokenClaims, TokenResponse}
use openauth.Crypto.{IsUtf8}
use openauth.ClientAuth.{verify_client_credentials}
use openauth.ClientAuth.Laws.{IsAuthentic, verify_client_credentials_iff}
use openauth.World.{Env, World, SigningKey}
use openauth.Token.Mint.{mint_tokens}
use openauth.Token.Mint.Laws.{IsMinted, mint_tokens-IsMinted}
use openauth.TokenExchange.{
  TokenExchangeRequest, ExchangeAudience, subject_scopes, exchanged_scopes, all_of_subject,
  other_audience, asked_audience, unknown_caller, unknown_at_target, subject_claims, checked_claims,
  exchange_args, mint_for_target, exchange_for, exchange_claims, exchange_token, with_hook,
}

all_of_subject_sound :
    (granted asked : List String)
    → all_of_subject granted asked ≡ none
    → All (λ s. includes granted s ≡ true) asked
unfolding all_of_subject
all_of_subject_sound granted [] h = tt
all_of_subject_sound granted (s ∷ rest) h =
    (ground arith, all_of_subject_sound granted rest (ground arith))

other_audience_lem :
    (aud client_id : String) → get_or_else (other_audience aud client_id) client_id ≡ aud
other_audience_lem aud client_id = elim (Bool-cases (aud == client_id)) [
  | inl e ↦ rw e (sym ((eq_iff aud client_id).0 e))
  | inr e ↦ rw e refl
]

exchanged_scopes_lem :
    (o : Option String) (granted : List String)
    → exchanged_scopes o granted
      ≡ (elim o [ none ↦ granted | some scope ↦ if scope == "" then granted else words scope ])
exchanged_scopes_lem none granted = refl
exchanged_scopes_lem (some scope) granted = refl

-- Why tokens were issued, and for what.
pub record IsExchanged (env : Env) (hook : Option ExchangeAudience) (req : TokenExchangeRequest)
    (w w' : World) (r : TokenResponse) : Type 0 where
  pub decide : ExchangeAudience
  pub keys : List SigningKey
  pub claims : AccessTokenClaims
  pub from : TenantConfig
  pub caller : ClientConfig
  pub claim : SubjectClaim
  pub target : TenantConfig
  pub registered : ClientConfig
  pub made : World
  pub enabled : hook ≡ some decide
  pub trusted : env.keys.signing_keys ≡ ok keys
  pub verified :
      env.jose.verify_access_token req.subject_token keys (some env.issuer_url) (env.now / 1000)
      ≡ some claims
  pub issued_by : env.config claims.tid ≡ ok from
  pub known : find_client from (get_or_else req.client_id claims.aud) ≡ some caller
  pub authentic : IsAuthentic env.platform caller.type req.client_secret
  -- the scopes of the token, and those that are asked for: all of them where none is
  pub granted : List String
  pub scopes : List String
  pub of_token : granted ≡ words (get_or_else claims.scope "")
  pub asked : scopes ≡ (elim req.scope [
    | none ↦ granted
    | some scope ↦ if scope == "" then granted else words scope
  ])
  pub within : All (λ s. includes granted s ≡ true) scopes
  pub carries : env.jose.lacks_claim req.subject_token ≡ false
  pub decided :
      decide claims.claim (record {
        audience = req.audience;
        requested_scopes = elim req.scope [ none ↦ none | some s ↦ some scopes ];
        client_id = caller.id;
        from_tenant_id = claims.tid;
      })
      ≡ ok claim
  pub configured : env.config req.audience ≡ ok target
  pub at_target : find_client target caller.id ≡ some registered
  -- the grant: in the target tenant, to the caller, and without a key
  pub audience : Option String
  pub minted :
      IsMinted env
        (record {
          tenant = target;
          claim = claim;
          tenant_id = req.audience;
          client_id = caller.id;
          method_id = get_or_else claims.mid "token_exchange";
          method_kind = get_or_else claims.mkind "token_exchange";
          scopes = scopes;
          audience = audience;
          auth_time = claims.auth_time;
          app_nonce = none;
          dpop_jkt = none;
          claims_request = none;
          family = env.new_family;
          skip_refresh = false;
        })
        w
        made
        r
  -- the new access token keeps the audience of the old one
  pub same_audience : minted.claims.aud ≡ claims.aud
  pub final : w'.tokens ≡ made.tokens

module _ (env : Env) (hook : Option ExchangeAudience) (req : TokenExchangeRequest) where
  subject_claims_sound :
      (claims : AccessTokenClaims)
      → subject_claims env hook req ≡ ok claims
      → (keys : List SigningKey) × (env.keys.signing_keys ≡ ok keys)
        × (env.jose.verify_access_token req.subject_token keys
              (some env.issuer_url)
              (env.now / 1000)
            ≡ some claims)
        × (env.jose.lacks_claim req.subject_token ≡ false)
  unfolding subject_claims checked_claims
  subject_claims_sound claims h = elim (Result-cases env.keys.signing_keys) [
    | inl (keys, e) ↦
        elim (Option-cases (
          env.jose.verify_access_token req.subject_token keys (some env.issuer_url)
            (env.now / 1000))) [
              | inl n ↦ absurd (ground arith)
              | inr (c, v) ↦ (keys, e, ground arith, ground arith)
            ]
    | inr (x, e) ↦ absurd (ground arith)
  ]

  -- What is known when the caller has been found.
  record IsCalled (decide : ExchangeAudience) (claims : AccessTokenClaims) (caller : ClientConfig)
      : Type 0 where
    keys : List SigningKey
    from : TenantConfig
    enabled : hook ≡ some decide
    trusted : env.keys.signing_keys ≡ ok keys
    verified :
        env.jose.verify_access_token req.subject_token keys (some env.issuer_url) (env.now / 1000)
        ≡ some claims
    carries : env.jose.lacks_claim req.subject_token ≡ false
    issued_by : env.config claims.tid ≡ ok from
    known : find_client from (get_or_else req.client_id claims.aud) ≡ some caller

  exchange_for_sound :
      (decide : ExchangeAudience) (claims : AccessTokenClaims) (caller : ClientConfig) (w : World)
      (r : TokenResponse)
      → IsUtf8 env.platform
      → IsCalled decide claims caller
      → (exchange_for env hook req decide claims caller w).0 ≡ ok r
      → IsExchanged env hook req w (exchange_for env hook req decide claims caller w).1 r
  unfolding exchange_for mint_for_target
  exchange_for_sound decide claims caller w r utf8 called h =
      let P = λ (w' : World). IsExchanged env hook req w w' r in
      let granted = subject_scopes claims in
      let scopes = exchanged_scopes req.scope granted in
      after_check P (verify_client_credentials env.platform caller req.client_secret) _ w r h
        λ authentic h1. after_check P (all_of_subject granted scopes) _ w r h1 λ within h2.
          after_bind P (lift (decide claims.claim (asked_audience req claims caller scopes)))
            (mint_for_target env hook req claims caller scopes) w r h2
            λ claim decided h3.
              after_bind P (lift (env.config req.audience)) _ w r h3 λ target configured h4.
                after_bind P
                  (lift (
                    or_fail (unknown_at_target caller.id req.audience)
                      (find_client target caller.id)))
                  _ w r h4
                  λ registered found h5.
                    let args = exchange_args env hook req claims caller target scopes claim in
                    after_bind P (mint_tokens env args) _ w r h5 λ minted is_minted h6.
                      let same : r ≡ minted = ground arith in
                      let made_of = mint_tokens-IsMinted env args w r (rw same is_minted) in
                      record {
                        decide = decide;
                        keys = called.keys;
                        claims = claims;
                        from = called.from;
                        caller = caller;
                        claim = claim;
                        target = target;
                        registered = registered;
                        made = (mint_tokens env args w).1;
                        enabled = called.enabled;
                        trusted = called.trusted;
                        verified = called.verified;
                        issued_by = called.issued_by;
                        known = called.known;
                        authentic =
                            (verify_client_credentials_iff env.platform caller req.client_secret
                                utf8).0
                              authentic;
                        granted = granted;
                        scopes = scopes;
                        of_token = refl;
                        asked = exchanged_scopes_lem req.scope granted;
                        within = all_of_subject_sound granted scopes within;
                        carries = called.carries;
                        decided = decided;
                        configured = configured;
                        at_target = or_fail-eq-ok _ _ registered found;
                        audience = other_audience claims.aud caller.id;
                        minted = made_of;
                        same_audience =
                            made_of.says.audience ∙ other_audience_lem claims.aud caller.id;
                        final = refl;
                      }

  with_hook_sound :
      (o : Option ExchangeAudience) (w : World) (r : TokenResponse)
      → IsUtf8 env.platform
      → hook ≡ o
      → (with_hook env hook req o w).0 ≡ ok r
      → IsExchanged env hook req w (with_hook env hook req o w).1 r
  unfolding with_hook exchange_claims
  with_hook_sound none w r utf8 on h = absurd (cc)
  with_hook_sound (some decide) w r utf8 on h =
      let P = λ (w' : World). IsExchanged env hook req w w' r in
      after_bind P (lift (subject_claims env hook req)) (exchange_claims env hook req decide) w r h
        λ claims shown h1.
          let (keys, trusted, verified, carries) = subject_claims_sound claims shown in
          after_bind P (lift (env.config claims.tid)) _ w r h1 λ from issued h2.
            let id = get_or_else req.client_id claims.aud in
            after_bind P (lift (or_fail (unknown_caller id) (find_client from id)))
              (exchange_for env hook req decide claims) w r h2
              λ caller found h3.
                exchange_for_sound decide claims caller w r utf8
                  (record {
                    keys = keys;
                    from = from;
                    enabled = on;
                    trusted = trusted;
                    verified = verified;
                    carries = carries;
                    issued_by = issued;
                    known = or_fail-eq-ok _ _ caller found;
                  })
                  h3

  -- Over an encoding that keeps the laws of UTF-8, when exchangeToken succeeds, the host has
  -- enabled it, the subject token verified under the signing keys and carries a claim, the caller
  -- (its client_id, or else the token's audience) is a client of the token's own tenant and
  -- authenticated, every scope is one of the token's, the host granted the claim, the audience is
  -- a configured tenant where a client of the caller's id is registered, and the tokens are minted
  -- for that tenant and client with the audience of the subject token, without a binding to a key.
  pub exchange_token-IsExchanged :
      (w : World) (r : TokenResponse)
      → IsUtf8 env.platform
      → (exchange_token env hook req w).0 ≡ ok r
      → IsExchanged env hook req w (exchange_token env hook req w).1 r
  unfolding exchange_token
  exchange_token-IsExchanged w r utf8 h = with_hook_sound hook w r utf8 refl h
