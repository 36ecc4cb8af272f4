-- ===== src/Token/Exchange.antt =====
-- `exchangeCode` and `saveEncryptedCode` of packages/openauth/src/domain/token.ts
pub mod Checks
pub mod Sound
pub mod Once
use openauth.Prelude.{
  ℕ, String, Bool, true, false, not, ◌&&◌, Option, none, some, ◌==◌, ◌<>◌, if◌then◌else◌, is_some,
}
use openauth.Types.Error.{
  AuthError, Result, ok, err, or_fail, server_error, internal_error, invalid_client, invalid_grant,
  invalid_dpop_proof,
}
use openauth.Types.Effect.{Exec, pure, fail, lift, require, check, ◌>>=◌, ◌>>◌}
use openauth.Types.Tenant.{TenantConfig, ClientConfig, find_client}
use openauth.Types.Token.{SubjectClaim, CodePayload, TokenResponse}
use openauth.Types.Audit.{invalid_subject_claim}
use openauth.ClientAuth.{verify_client_credentials}
use openauth.Crypto.{Platform}
use openauth.Pkce.{validate_pkce}
use openauth.Subject.{
  Validated, accepted, rejected, Reason, unknown_type, invalid_properties, validate_subject_claim,
}
use openauth.TokenStore.{save_code, consume_code}
use openauth.World.{EncryptionKey, SuccessMapInput, Env, World, with_tokens, safe_audit}
use openauth.Token.Mint.{MintArgs, mint_tokens}

pub record TokenAuthCodeRequest : Type 0 where
  pub code : String
  pub redirect_uri : String
  pub client_id : String
  pub client_secret : Option String
  pub code_verifier : Option String
  pub dpop_jkt : Option String

abbrev pub usable {ℓ} : {A : Type ℓ} → Result A → Option A
usable (ok a) = some a
usable (err e) = none

abbrev pub mismatch : String → AuthError
mismatch text = invalid_grant text none

abbrev reason_text : Reason → String
reason_text unknown_type = "unknown-type"
reason_text invalid_properties = "invalid-properties"

-- `if (client.dpopRequired && req.dpopJkt === undefined)`
dpop_check : ClientConfig → Option String → Option AuthError
dpop_check client jkt =
    if client.dpop_required && not (is_some jkt)
    then some
        (invalid_dpop_proof ("client \"" <> client.id <> "\" requires DPoP-bound tokens") none)
    else none

abbrev pub map_input : CodePayload → SuccessMapInput
map_input payload = record {
  tenant_id = payload.tenant_id;
  method_id = payload.method_id;
  method_kind = payload.method_kind;
  provider_subject = payload.provider_subject;
  properties = payload.properties;
  context = payload.context;
}

unfoldable pub run_persist :
    Option (SuccessMapInput → SubjectClaim → Bool)
    → SuccessMapInput
    → SubjectClaim
    → Result (Unit {0})
run_persist none input claim = ok tt
run_persist (some hook) input claim =
    if hook input claim then ok tt else err (server_error "persistUpstreamTokens hook threw")

module _ (env : Env) where
  unfoldable pub save_encrypted_code : String → CodePayload → ℕ → Exec World (Unit {0})
  save_encrypted_code code payload ttl = do
    key ← lift env.keys.current_encryption_key
    ciphertext ← lift (
        or_fail (internal_error "saveEncryptedCode: encrypt failed")
          (env.jose.encrypt_payload payload key))
    with_tokens (save_code env.now code ciphertext ttl)

  unfoldable pub decrypted : String → Result CodePayload
  decrypted ciphertext =
      or_fail (internal_error "exchangeCode: decrypt failed")
        (env.jose.decrypt_payload ciphertext (λ kid. usable (env.keys.get_encryption_key kid)))

  verifier_check : Option String → String → Option AuthError
  verifier_check none challenge = some (mismatch "missing code_verifier")
  verifier_check (some v) challenge =
      if v == ""
      then some (mismatch "missing code_verifier")
      else if validate_pkce env.platform v challenge
      then none
      else some (mismatch "PKCE verification failed")

  pkce_check : Option String → Option String → Option AuthError
  pkce_check none verifier = none
  pkce_check (some challenge) verifier = verifier_check verifier challenge

  -- Steps 3 to 5: what the request must have in common with the code.
  unfoldable pub request_check :
      TokenAuthCodeRequest → CodePayload → ClientConfig → Exec World (Unit {0})
  unfolding dpop_check verifier_check pkce_check
  request_check req payload client = do
    require (client.id == req.client_id) (mismatch "client_id mismatch with auth code")
    check (verify_client_credentials env.platform client req.client_secret)
    check (dpop_check client req.dpop_jkt)
    require (payload.app_redirect_uri == req.redirect_uri)
        (mismatch "redirect_uri mismatch with auth code")
    check (pkce_check payload.client_pkce req.code_verifier)

  accept_claim : String → String → Validated → Exec World SubjectClaim
  accept_claim tenant_id client_id (accepted claim) = pure claim
  accept_claim tenant_id client_id (rejected e r) = do
    safe_audit (
        invalid_subject_claim tenant_id client_id r.subject_type (reason_text r.reason) r.detail
          env.now)
    fail e

  -- Step 6, which every grant with a host callback shares: call `success`, validate what it returns.
  unfoldable pub subject_claim : SuccessMapInput → String → Exec World SubjectClaim
  unfolding accept_claim
  subject_claim input client_id = do
    claim ← lift (or_fail (server_error "success callback threw") (env.host.success input))
    accept_claim input.tenant_id client_id (validate_subject_claim env.host.subjects claim)

  abbrev pub mint_args : TokenAuthCodeRequest → CodePayload → TenantConfig → SubjectClaim → MintArgs
  mint_args req payload tenant claim = record {
    tenant = tenant;
    claim = claim;
    tenant_id = payload.tenant_id;
    client_id = payload.client_id;
    method_id = payload.method_id;
    method_kind = payload.method_kind;
    scopes = payload.scopes;
    audience = payload.audience;
    auth_time = some payload.auth_time;
    app_nonce = payload.app_nonce;
    dpop_jkt = req.dpop_jkt;
    claims_request = payload.claims_request;
    family = env.new_family;
    skip_refresh = false;
  }

  -- Steps 6 to 8
  unfoldable pub grant_code :
      TokenAuthCodeRequest → CodePayload → TenantConfig → Exec World TokenResponse
  grant_code req payload tenant = do
    claim ← subject_claim (map_input payload) payload.client_id
    lift (run_persist env.host.persist_upstream_tokens (map_input payload) claim)
    mint_tokens env (mint_args req payload tenant claim)

  -- The rest of step 2, and steps 3 to 8.
  unfoldable pub with_tenant :
      TokenAuthCodeRequest → CodePayload → TenantConfig → Exec World TokenResponse
  with_tenant req payload tenant = do
    client ← lift (
        or_fail (invalid_client ("unknown client \"" <> payload.client_id <> "\""))
          (find_client tenant payload.client_id))
    request_check req payload client
    grant_code req payload tenant

  unfoldable pub exchange_payload : TokenAuthCodeRequest → CodePayload → Exec World TokenResponse
  exchange_payload req payload = do
    tenant ← lift (env.config payload.tenant_id)
    with_tenant req payload tenant

  unfoldable pub exchange_code : TokenAuthCodeRequest → Exec World TokenResponse
  exchange_code req = do
    ciphertext ← with_tokens (consume_code env.now req.code)
    payload ← lift (decrypted ciphertext)
    exchange_payload req payload
