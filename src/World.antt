-- ===== src/World.antt =====
-- What the domain functions are given: packages/openauth/src/types/idp.ts (the host's callbacks), the
-- key and configuration ports, and the mutable state behind the store ports, here that of the
-- in-memory adapters. A request reads its clock once; callbacks that throw answer `none` or `false`.
use openauth.Prelude.{ℕ, String, Bool, Option, List, ◌++◌, ◌∷◌, [], Dict, ◌⊎◌}
use openauth.Types.Error.{Result, ok}
use openauth.Types.Effect.{Exec}
use openauth.Types.Json.{Json, Fields}
use openauth.Types.Tenant.{ConfigStore}
use openauth.Types.Token.{SubjectClaim, CodePayload, AccessTokenClaims}
use openauth.Types.Audit.{AuditEvent}
use openauth.Crypto.{Platform}
use openauth.IdToken.{Mappings}
use openauth.Subject.{SubjectSchema}
use openauth.TokenStore.{TokenStore}
use openauth.SessionStore.{SessionStore}
use openauth.Types.Method.{AuthMethod}

-- ports/key-store.ts; a key is what jose signs or encrypts with
pub record SigningKey : Type 0 where
  pub kid : String
  pub alg : String
  pub public_jwk : Fields

pub record EncryptionKey : Type 0 where
  pub kid : String
  pub key_ref : String

pub record KeyStore : Type 0 where
  pub current_signing_key : Result SigningKey
  pub signing_keys : Result (List SigningKey)
  pub current_encryption_key : Result EncryptionKey
  pub get_encryption_key : String → Result EncryptionKey

-- What the program takes from jose; `none` where it throws.
pub record Jose : Type 0 where
  pub sign_access_token : AccessTokenClaims → SigningKey → Option String
  pub sign_id_token : List (String × Json) → SigningKey → Option String
  -- signature, issuer and expiry are checked; the last argument is the clock in seconds
  pub verify_access_token : String → List SigningKey → Option String → ℕ → Option AccessTokenClaims
  -- the message of the error, where it throws
  pub access_token_error : String → List SigningKey → Option String → ℕ → String
  -- `!claims.claim` of an access token that verifies: a payload without a subject, for which the
  -- answer above has a claim all the same
  pub lacks_claim : String → Bool
  -- subject and audience of an id_token, its expiry not checked; the reason where it throws
  pub verify_id_token : String → List SigningKey → Option String → String ⊎ (String × String)
  pub encrypt_payload : CodePayload → EncryptionKey → Option String
  pub decrypt_payload : String → (String → Option EncryptionKey) → Option CodePayload
  -- `JSON.stringify`
  pub stringify : Json → String

pub record SuccessMapInput : Type 0 where
  pub tenant_id : String
  pub method_id : String
  pub method_kind : String
  pub provider_subject : String
  pub properties : Json
  pub context : Option Fields

pub record TokenIssued : Type 0 where
  pub tenant_id : String
  pub client_id : String
  pub subject_id : String
  pub claim : SubjectClaim
  pub family : Option String

pub record Host : Type 0 where
  pub success : SuccessMapInput → Option SubjectClaim
  pub subjects : SubjectSchema
  pub persist_upstream_tokens : Option (SuccessMapInput → SubjectClaim → Bool)
  pub on_token_issued : Option (TokenIssued → Bool)
  pub subject_key : Option (SubjectClaim → Option String)
  pub custom_scope_claims : Mappings

-- The surroundings of one request, with the random values that it draws.
pub record Env : Type 0 where
  pub platform : Platform
  pub jose : Jose
  pub keys : KeyStore
  pub config : ConfigStore
  pub host : Host
  pub issuer_url : String
  pub now : ℕ
  pub new_refresh_token : String
  pub new_family : String
  pub new_code : String
  pub reuse_window_ms : Option ℕ

-- The state of domain/method-cache.ts: what it has built, and what it knows to be disabled.
pub record Methods : Type 0 where
  pub cache : Dict AuthMethod
  pub disabled : Dict (Unit {0})

-- The state behind the ports.
pub record World : Type 0 where
  pub tokens : TokenStore
  pub sessions : SessionStore
  pub methods : Methods
  pub audit : List AuditEvent

-- A call of a method of the token store.
abbrev pub with_tokens : {A : Type 0} → (TokenStore → Result A × TokenStore) → Exec World A
with_tokens m w = ((m w.tokens).0, record w { tokens = (m w.tokens).1 })

abbrev pub with_sessions : {A : Type 0} → (SessionStore → Result A × SessionStore) → Exec World A
with_sessions m w = ((m w.sessions).0, record w { sessions = (m w.sessions).1 })

-- domain/audit.ts
abbrev pub safe_audit : AuditEvent → Exec World (Unit {0})
safe_audit e w = (ok tt, record w { audit = w.audit ++ e ∷ [] })
