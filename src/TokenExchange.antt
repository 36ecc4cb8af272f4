-- ===== src/TokenExchange.antt =====
-- packages/openauth/src/domain/token-exchange.ts (RFC 8693): an access token of one tenant is exchanged
-- for tokens of another. The host's hook answers with a claim or an error; one that throws rejects the
-- promise, and so answers `rejected_promise` here. Access tokens carry a claim: every token that the
-- program signs does.
pub mod Sound
use openauth.Prelude.{
  ◌/◌, String, true, false, Option, none, some, List, [], ◌∷◌, ◌==◌, ◌<>◌, if◌then◌else◌, includes,
  words, get_or_else,
}
use openauth.Types.Error.{
  AuthError, Result, ok, err, or_fail, Check, invalid_client, invalid_grant, invalid_scope,
  invalid_target, unsupported_grant_type,
}
use openauth.Types.Effect.{Exec, pure, lift, check, ◌>>=◌, ◌>>◌}
use openauth.Types.Tenant.{TenantConfig, ClientConfig, find_client}
use openauth.Types.Token.{SubjectClaim, AccessTokenClaims, TokenResponse}
use openauth.Types.Audit.{token_exchanged}
use openauth.ClientAuth.{verify_client_credentials}
use openauth.World.{Env, World, SigningKey, safe_audit}
use openauth.Token.Mint.{MintArgs, mint_tokens}

pub record TokenExchangeRequest : Type 0 where
  pub subject_token : String
  pub audience : String
  pub client_id : Option String
  pub client_secret : Option String
  pub scope : Option String

-- `issued_token_type` is a constant of the response.
abbrev pub TokenExchangeResponse : Type 0
TokenExchangeResponse = TokenResponse

pub record AudienceRequest : Type 0 where
  pub audience : String
  pub requested_scopes : Option (List String)
  pub client_id : String
  pub from_tenant_id : String

abbrev pub ExchangeAudience : Type 0
ExchangeAudience = SubjectClaim → AudienceRequest → Result SubjectClaim

abbrev pub not_configured_here : AuthError
not_configured_here = unsupported_grant_type "token-exchange is not configured on this IdP"

abbrev pub claim_missing : AuthError
claim_missing =
    invalid_grant "subject_token does not carry a SubjectClaim — was it issued by this IdP?" none

abbrev pub unknown_caller : String → AuthError
unknown_caller id = invalid_client ("unknown client \"" <> (id <> "\""))

abbrev pub unknown_at_target : String → String → AuthError
unknown_at_target client_id tenant_id = invalid_target (
    "client \""
    <> (client_id <> ("\" is not registered in target tenant \"" <> (tenant_id <> "\""))))

-- `(subjectClaims.scope ?? "").split(" ").filter((s) => s.length > 0)`
abbrev pub subject_scopes : AccessTokenClaims → List String
subject_scopes claims = words (get_or_else claims.scope "")

abbrev pub exchanged_scopes : Option String → List String → List String
exchanged_scopes none granted = granted
exchanged_scopes (some scope) granted = if scope == "" then granted else words scope

unfoldable pub all_of_subject : List String → List String → Check
all_of_subject granted [] = none
all_of_subject granted (s ∷ rest) =
    if includes granted s
    then all_of_subject granted rest
    else some (invalid_scope ("requested scope \"" <> (s <> "\" not granted by subject_token")))

-- `subjectClaims.aud !== callerClient.id ? { audience: subjectClaims.aud } : {}`
abbrev pub other_audience : String → String → Option String
other_audience aud client_id = if aud == client_id then none else some aud

-- what the hook is asked
abbrev pub asked_audience :
    TokenExchangeRequest → AccessTokenClaims → ClientConfig → List String → AudienceRequest
asked_audience req claims caller scopes = record {
  audience = req.audience;
  requested_scopes = elim req.scope [ none ↦ none | some s ↦ some scopes ];
  client_id = caller.id;
  from_tenant_id = claims.tid;
}

module _ (env : Env) (hook : Option ExchangeAudience) (req : TokenExchangeRequest) where
  -- Step 2
  checked_claims : Result AccessTokenClaims → Result AccessTokenClaims
  checked_claims (err e) = err e
  checked_claims (ok claims) =
      if env.jose.lacks_claim req.subject_token then err claim_missing else ok claims

  unfoldable pub subject_claims : Result AccessTokenClaims
  unfolding checked_claims
  subject_claims = checked_claims (elim env.keys.signing_keys [
    | err e ↦ err e
    | ok keys ↦
        or_fail
          (invalid_grant
            ("subject_token verification failed: "
              <> env.jose.access_token_error req.subject_token keys (some env.issuer_url)
                  (env.now / 1000))
            none)
          (env.jose.verify_access_token req.subject_token keys (some env.issuer_url)
            (env.now / 1000))
  ])

  abbrev pub exchange_args :
      AccessTokenClaims → ClientConfig → TenantConfig → List String → SubjectClaim → MintArgs
  exchange_args claims caller target scopes claim = record {
    tenant = target;
    claim = claim;
    tenant_id = req.audience;
    client_id = caller.id;
    method_id = get_or_else claims.mid "token_exchange";
    method_kind = get_or_else claims.mkind "token_exchange";
    scopes = scopes;
    audience = other_audience claims.aud caller.id;
    auth_time = claims.auth_time;
    app_nonce = none;
    dpop_jkt = none;
    claims_request = none;
    family = env.new_family;
    skip_refresh = false;
  }

  -- Steps 6 to 8
  unfoldable pub mint_for_target :
      AccessTokenClaims
      → ClientConfig
      → List String
      → SubjectClaim
      → Exec World TokenExchangeResponse
  mint_for_target claims caller scopes claim = do
    target ← lift (env.config req.audience)
    registered ←
        lift (or_fail (unknown_at_target caller.id req.audience) (find_client target caller.id))
    minted ← mint_tokens env (exchange_args claims caller target scopes claim)
    safe_audit (token_exchanged req.audience claims.tid caller.id claims.sub "exchanged" env.now)
    pure minted

  -- Steps 3 to 5, for the caller that was found.
  unfoldable pub exchange_for :
      ExchangeAudience → AccessTokenClaims → ClientConfig → Exec World TokenExchangeResponse
  unfolding all_of_subject
  exchange_for decide claims caller = do
    check (verify_client_credentials env.platform caller req.client_secret)
    let scopes = exchanged_scopes req.scope (subject_scopes claims)
    check (all_of_subject (subject_scopes claims) scopes)
    claim ← lift (decide claims.claim (asked_audience req claims caller scopes))
    mint_for_target claims caller scopes claim

  unfoldable pub exchange_claims :
      ExchangeAudience → AccessTokenClaims → Exec World TokenExchangeResponse
  exchange_claims decide claims = do
    from ← lift (env.config claims.tid)
    let id = get_or_else req.client_id claims.aud
    caller ← lift (or_fail (unknown_caller id) (find_client from id))
    exchange_for decide claims caller

  with_hook : Option ExchangeAudience → Exec World TokenExchangeResponse
  with_hook none w = (err not_configured_here, w)
  with_hook (some decide) w = (do claims ← lift subject_claims; exchange_claims decide claims) w

  unfoldable pub exchange_token : Exec World TokenExchangeResponse
  unfolding with_hook
  exchange_token = with_hook hook
