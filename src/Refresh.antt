-- ===== src/Refresh.antt =====
-- packages/openauth/src/domain/refresh.ts: `grant_type=refresh_token`. The clock and the random values
-- are those of `Env`.
pub mod Gate
pub mod Sound
pub mod Once
use openauth.Prelude.{
  String, Bool, true, false, Option, none, some, List, [], ◌∷◌, ◌==◌, ◌<>◌, if◌then◌else◌, includes,
  words,
}
use openauth.Types.Error.{
  AuthError, ReuseSignal, Result, ok, err, or_fail, Check, invalid_grant, invalid_scope,
  invalid_dpop_proof,
}
use openauth.Types.Effect.{Exec, pure, fail, lift, attempt, check, ◌>>=◌, ◌>>◌}
use openauth.Types.Tenant.{
  TenantConfig, ClientConfig, ClientType, public, confidential, find_client,
}
use openauth.Types.Token.{RefreshTokenPayload, TokenResponse}
use openauth.Types.Audit.{refresh_reuse_detected, token_refreshed}
use openauth.ClientAuth.{verify_client_credentials}
use openauth.TokenStore.{peek_refresh, consume_refresh}
use openauth.World.{Env, World, with_tokens, safe_audit}
use openauth.Token.Mint.{MintArgs, mint_tokens}

pub record RefreshGrantRequest : Type 0 where
  pub refresh_token : String
  pub scope : Option String
  pub client_id : Option String
  pub client_secret : Option String
  pub dpop_jkt : Option String

-- `INVALID_REFRESH_DESC`
abbrev pub refresh_invalid : AuthError
refresh_invalid = invalid_grant "refresh token is invalid" none

abbrev pub proof_missing : AuthError
proof_missing =
    invalid_dpop_proof "refresh token is DPoP-bound; request is missing a DPoP proof" none

abbrev pub proof_mismatch : AuthError
proof_mismatch =
    invalid_dpop_proof "refresh token DPoP jkt does not match the original binding" none

-- the loop of `validateRequestedScopes`
unfoldable pub all_granted : List String → List String → Check
all_granted granted [] = none
all_granted granted (s ∷ rest) =
    if includes granted s
    then all_granted granted rest
    else some
        (invalid_scope ("requested scope \"" <> s <> "\" not granted by original refresh token"))

unfoldable pub validate_requested_scopes : Option String → List String → Check
unfolding all_granted
validate_requested_scopes none granted = none
validate_requested_scopes (some requested) granted = all_granted granted (words requested)

-- `req.scope ? req.scope.split(" ").filter(Boolean) : payload.scopes`
unfoldable pub requested_scopes : Option String → List String → List String
requested_scopes none granted = granted
requested_scopes (some requested) granted = if requested == "" then granted else words requested

pub binding_check : Option String → Option String → Check
binding_check none presented = none
binding_check (some jkt) none = some proof_missing
binding_check (some jkt) (some presented) = if presented == jkt then none else some proof_mismatch

abbrev anonymous_check : ClientType → Check
anonymous_check public = none
anonymous_check (confidential secret_hash pkce) = some refresh_invalid

module _ (env : Env) where
  presenting_check : Option ClientConfig → String → Option String → String → Check
  presenting_check none id secret owner = some refresh_invalid
  presenting_check (some presenting) id secret owner =
      elim (verify_client_credentials env.platform presenting secret) [
        | some e ↦ some refresh_invalid
        | none ↦ if id == owner then none else some refresh_invalid
      ]

  pub owner_check : TenantConfig → ClientConfig → Option String → Option String → String → Check
  unfolding presenting_check
  owner_check tenant client none secret owner = anonymous_check client.type
  owner_check tenant client (some id) secret owner =
      presenting_check (find_client tenant id) id secret owner

  -- The three checks of the request against the payload that the peek showed.
  unfoldable pub gate_checks :
      RefreshGrantRequest
      → RefreshTokenPayload
      → TenantConfig
      → ClientConfig
      → Exec World (Unit {0})
  unfolding owner_check binding_check validate_requested_scopes
  gate_checks req peeked tenant client = do
    check (owner_check tenant client req.client_id req.client_secret peeked.client_id)
    check (binding_check peeked.dpop_jkt req.dpop_jkt)
    check (validate_requested_scopes req.scope peeked.scopes)

  -- Everything before the token is consumed: the payload that the peek showed, and its tenant.
  unfoldable pub gate_peeked :
      RefreshGrantRequest → RefreshTokenPayload → Exec World (RefreshTokenPayload × TenantConfig)
  gate_peeked req peeked = do
    tenant ← lift (env.config peeked.tenant_id)
    client ← lift (or_fail refresh_invalid (find_client tenant peeked.client_id))
    gate_checks req peeked tenant client
    pure (peeked, tenant)

  unfoldable pub gate : RefreshGrantRequest → Exec World (RefreshTokenPayload × TenantConfig)
  gate req = do
    peeked ← with_tokens (peek_refresh env.now req.refresh_token)
    gate_peeked req peeked

  -- A reuse that the store signals is audited; every error goes to the caller as it is.
  audited_failure : RefreshTokenPayload → AuthError → Exec World RefreshTokenPayload
  audited_failure peeked (invalid_grant d (some signal)) = do
    safe_audit (refresh_reuse_detected peeked.tenant_id peeked.client_id signal.family env.now)
    fail (invalid_grant d (some signal))
  audited_failure peeked e = fail e

  consumed_or_audited :
      RefreshTokenPayload → Result RefreshTokenPayload → Exec World RefreshTokenPayload
  unfolding audited_failure
  consumed_or_audited peeked (ok payload) = pure payload
  consumed_or_audited peeked (err e) = audited_failure peeked e

  unfoldable pub consume :
      RefreshGrantRequest → RefreshTokenPayload → Exec World RefreshTokenPayload
  unfolding consumed_or_audited
  consume req peeked = do
    consumed ← attempt (with_tokens (consume_refresh env.now req.refresh_token env.reuse_window_ms))
    consumed_or_audited peeked consumed

  abbrev pub refreshed_args : RefreshGrantRequest → RefreshTokenPayload → TenantConfig → MintArgs
  refreshed_args req payload tenant = record {
    tenant = tenant;
    claim = payload.claim;
    tenant_id = payload.tenant_id;
    client_id = payload.client_id;
    method_id = payload.method_id;
    method_kind = payload.method_kind;
    scopes = requested_scopes req.scope payload.scopes;
    audience = payload.audience;
    auth_time = some payload.auth_time;
    app_nonce = none;
    dpop_jkt = payload.dpop_jkt;
    claims_request = payload.claims_request;
    family = payload.family;
    skip_refresh = false;
  }

  unfoldable pub rotate :
      RefreshGrantRequest → RefreshTokenPayload → TenantConfig → Exec World TokenResponse
  unfolding validate_requested_scopes
  rotate req payload tenant = do
    check (validate_requested_scopes req.scope payload.scopes)
    response ← mint_tokens env (refreshed_args req payload tenant)
    safe_audit (
        token_refreshed payload.tenant_id payload.client_id payload.subject_id payload.family
          env.now)
    pure response

  unfoldable pub refresh_gated :
      RefreshGrantRequest → RefreshTokenPayload × TenantConfig → Exec World TokenResponse
  refresh_gated req (peeked, tenant) = do payload ← consume req peeked; rotate req payload tenant

  unfoldable pub refresh_tokens : RefreshGrantRequest → Exec World TokenResponse
  refresh_tokens req = do gated ← gate req; refresh_gated req gated
