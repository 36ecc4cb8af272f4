-- ===== src/Revoke.antt =====
-- packages/openauth/src/domain/revoke.ts: the revocation of one refresh token by its client, and of all
-- tokens of a subject by the host.
pub mod Laws
use openauth.Prelude.{
  String, Bool, true, false, not, ◌&&◌, ◌||◌, Option, none, some, ◌==◌, if◌then◌else◌,
}
use openauth.Types.Error.{AuthError, Result, ok, err, Check, invalid_client}
use openauth.Types.Effect.{Exec, pure, lift, attempt, require, check, ◌>>=◌, ◌>>◌}
use openauth.Types.Tenant.{ClientConfig, ClientType, public, confidential, find_client}
use openauth.Types.Token.{RefreshTokenPayload}
use openauth.Types.Audit.{token_revoked, revoke_wrong_client_attempt}
use openauth.ClientAuth.{truthy, verify_client_credentials}
use openauth.TokenStore.{peek_refresh, consume_refresh, revoke_by_subject}
use openauth.World.{Env, World, with_tokens, safe_audit}

pub data TokenTypeHint : Type 0 where
  access_token refresh_token : TokenTypeHint

pub record RevokeRequest : Type 0 where
  pub token : String
  pub token_type_hint : Option TokenTypeHint
  pub client_id : Option String
  pub client_secret : Option String

abbrev pub must_authenticate : AuthError
must_authenticate = invalid_client "confidential client must authenticate to revoke its tokens"

-- `if (isErr(r)) return ok(undefined)`
abbrev pub or_silently :
    {A : Type 0} → Result A → (A → Exec World (Unit {0})) → Exec World (Unit {0})
or_silently (ok a) k = k a
or_silently (err e) k = pure tt

-- `client.type !== "confidential" || (req.clientId && req.clientSecret)`
unfoldable pub has_credentials : ClientType → Option String → Option String → Bool
has_credentials public id secret = true
has_credentials (confidential secret_hash pkce) id secret = truthy id && truthy secret

-- `req.clientId !== undefined && req.clientId !== owner`
abbrev is_stranger : Option String → String → Bool
is_stranger none owner = false
is_stranger (some id) owner = not (id == owner)

abbrev pub is_access_token : Option TokenTypeHint → Bool
is_access_token (some access_token) = true
is_access_token (some refresh_token) = false
is_access_token none = false

module _ (env : Env) where
  pub presented_check : ClientConfig → Option String → Option String → Check
  presented_check client none secret = none
  presented_check client (some id) secret = verify_client_credentials env.platform client secret

  wrong_client : RefreshTokenPayload → Option String → Exec World (Unit {0})
  wrong_client payload none = pure tt
  wrong_client payload (some id) = safe_audit (
      revoke_wrong_client_attempt payload.tenant_id id payload.client_id payload.subject_id env.now)

  consume_and_audit : RevokeRequest → RefreshTokenPayload → Exec World (Unit {0})
  consume_and_audit req payload = do
    consumed ← attempt (with_tokens (consume_refresh env.now req.token (some 0)))
    or_silently consumed (λ _. safe_audit (
        token_revoked payload.tenant_id (some payload.client_id) payload.subject_id
          (some payload.family) "client_revoke" env.now))

  unfoldable pub revoke_owned :
      RevokeRequest → RefreshTokenPayload → ClientConfig → Exec World (Unit {0})
  unfolding has_credentials presented_check wrong_client consume_and_audit
  revoke_owned req payload client = do
    require (has_credentials client.type req.client_id req.client_secret) must_authenticate
    if is_stranger req.client_id payload.client_id then wrong_client payload req.client_id else do
      check (presented_check client req.client_id req.client_secret)
      consume_and_audit req payload

  revoke_client : RevokeRequest → RefreshTokenPayload → Option ClientConfig → Exec World (Unit {0})
  revoke_client req payload none = pure tt
  revoke_client req payload (some client) = revoke_owned req payload client

  unfoldable pub revoke_peeked : RevokeRequest → RefreshTokenPayload → Exec World (Unit {0})
  unfolding revoke_client
  revoke_peeked req payload =
      or_silently (env.config payload.tenant_id)
        (λ tenant. revoke_client req payload (find_client tenant payload.client_id))

  unfoldable pub revoke_token : RevokeRequest → Exec World (Unit {0})
  revoke_token req = if is_access_token req.token_type_hint then pure tt else do
    peek ← attempt (with_tokens (peek_refresh env.now req.token))
    or_silently peek (revoke_peeked req)

  unfoldable pub revoke_all_for_subject : String → String → Exec World (Unit {0})
  revoke_all_for_subject tenant_id subject_id = do
    with_tokens (revoke_by_subject tenant_id subject_id)
    safe_audit (token_revoked tenant_id none subject_id none "subject_revoke" env.now)
