-- ===== src/Flow/Issued.antt =====
-- What issuing a code leaves in the stores. About packages/openauth/src/domain/authorize.ts and
-- callback.ts.
use openauth.Prelude.{◌+◌, ◌/◌, String, some, ◌≡◌, refl, arith, eq_refl}
use openauth.Types.Error.{ok, or_fail, or_fail-eq-ok, internal_error}
use openauth.Types.Effect.{lift, after_bind}
use openauth.Types.Json.{Json}
use openauth.Types.Token.{CodePayload}
use openauth.Types.Flow.{FlowRecord}
use openauth.TokenStore.{auth_code_ttl_ms, save_code}
use openauth.World.{EncryptionKey, Env, World, with_tokens}
use openauth.Token.Exchange.{save_encrypted_code}
use openauth.Flow.{IssuedCode, snapshot, issue_code}

-- The payload of a code is for what the flow was for, and for the user that the method named.
pub record IsOfFlow (env : Env) (flow : FlowRecord) (subject : String) (properties : Json)
    (payload : CodePayload) : Type 0 where
  pub tenant : payload.tenant_id ≡ flow.tenant_id
  pub client : payload.client_id ≡ flow.client_id
  pub redirect : payload.app_redirect_uri ≡ flow.app_redirect_uri
  pub state : payload.app_state ≡ flow.app_state
  pub scopes : payload.scopes ≡ flow.scopes
  pub audience : payload.audience ≡ flow.audience
  pub challenge : payload.client_pkce ≡ flow.client_pkce
  pub method : payload.method_id ≡ flow.method_id
  pub kind : payload.method_kind ≡ flow.method_kind
  pub context : payload.context ≡ flow.context
  pub nonce : payload.app_nonce ≡ flow.app_nonce
  pub asked : payload.claims_request ≡ flow.claims_request
  pub user : payload.provider_subject ≡ subject
  pub told : payload.properties ≡ properties
  pub authenticated : payload.auth_time ≡ env.now / 1000
  pub expires : payload.expires_at ≡ env.now + 60000

pub snapshot-IsOfFlow :
    (env : Env) (flow : FlowRecord) (subject : String) (properties : Json)
    → IsOfFlow env flow subject properties (snapshot env flow subject properties)
snapshot-IsOfFlow env flow subject properties = record {
  tenant = refl;
  client = refl;
  redirect = refl;
  state = refl;
  scopes = refl;
  audience = refl;
  challenge = refl;
  method = refl;
  kind = refl;
  context = refl;
  nonce = refl;
  asked = refl;
  user = refl;
  told = refl;
  authenticated = refl;
  expires = refl;
}

-- The code's row holds the payload, encrypted, for the lifetime of a code, and the response names it.
pub record IsIssued (env : Env) (payload : CodePayload) (w w' : World) (r : IssuedCode)
    : Type 0 where
  pub key : EncryptionKey
  pub ciphertext : String
  pub current : env.keys.current_encryption_key ≡ ok key
  pub encrypted : env.jose.encrypt_payload payload key ≡ some ciphertext
  pub stored :
      w'.tokens.codes env.new_code
      ≡ some (record { ciphertext = ciphertext; expires_at = env.now + 60000 })
  pub sessions : w'.sessions ≡ w.sessions
  pub code : r.code ≡ env.new_code
  pub redirect : r.app_redirect_uri ≡ payload.app_redirect_uri
  pub state : r.app_state ≡ payload.app_state

-- What saving a payload leaves.
record IsSealed (env : Env) (payload : CodePayload) (w w' : World) : Type 0 where
  key : EncryptionKey
  ciphertext : String
  current : env.keys.current_encryption_key ≡ ok key
  encrypted : env.jose.encrypt_payload payload key ≡ some ciphertext
  stored :
      w'.tokens.codes env.new_code
      ≡ some (record { ciphertext = ciphertext; expires_at = env.now + 60000 })
  sessions : w'.sessions ≡ w.sessions

module _ (env : Env) where
  save_encrypted_code-IsSealed :
      (payload : CodePayload) (w : World)
      → (save_encrypted_code env env.new_code payload auth_code_ttl_ms w).0 ≡ ok tt
      → IsSealed env payload w (save_encrypted_code env env.new_code payload auth_code_ttl_ms w).1
  unfolding save_encrypted_code save_code
  save_encrypted_code-IsSealed payload w h =
      let P = IsSealed env payload w in
      after_bind P (lift env.keys.current_encryption_key) _ w tt h λ key current h1.
        after_bind P
          (lift (
            or_fail (internal_error "saveEncryptedCode: encrypt failed")
              (env.jose.encrypt_payload payload key)))
          (λ ciphertext. with_tokens (save_code env.now env.new_code ciphertext auth_code_ttl_ms)) w
          tt h1
          λ ciphertext encrypted h2. record {
            key = key;
            ciphertext = ciphertext;
            current = current;
            encrypted = or_fail-eq-ok _ _ ciphertext encrypted;
            stored = ground (arith, eq_refl env.new_code);
            sessions = refl;
          }

  pub issue_code-IsIssued :
      (payload : CodePayload) (flow_id : String) (w : World) (r : IssuedCode)
      → (issue_code env payload flow_id w).0 ≡ ok r
      → IsIssued env payload w (issue_code env payload flow_id w).1 r
  unfolding issue_code
  issue_code-IsIssued payload flow_id w r h =
      after_bind (λ w'. IsIssued env payload w w' r)
        (save_encrypted_code env env.new_code payload auth_code_ttl_ms) _ w r h
        λ done saved h1.
          let sealed = save_encrypted_code-IsSealed payload w saved in
          record {
            key = sealed.key;
            ciphertext = sealed.ciphertext;
            current = sealed.current;
            encrypted = sealed.encrypted;
            stored = sealed.stored;
            sessions = sealed.sessions;
            code = ground arith;
            redirect = ground arith;
            state = ground arith;
          }
