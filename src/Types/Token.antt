-- ===== src/Types/Token.antt =====
-- packages/openauth/src/types/token.ts, subject.ts and the `ClaimsRequest` of authorization.ts.
use openauth.Prelude.{ℕ, String, Option, List}
use openauth.Types.Json.{Json, Fields}

pub record SubjectClaim : Type 0 where
  pub type : String
  pub properties : Json

-- The names of the claims that the relying party asks for, on each surface.
pub record ClaimsRequest : Type 0 where
  pub id_token : List String
  pub userinfo : List String

pub record CodePayload : Type 0 where
  pub tenant_id : String
  pub client_id : String
  pub app_redirect_uri : String
  pub app_state : Option String
  pub scopes : List String
  pub audience : Option String
  -- the S256 challenge
  pub client_pkce : Option String
  pub method_id : String
  pub method_kind : String
  pub context : Option Fields
  pub provider_subject : String
  pub properties : Json
  pub app_nonce : Option String
  pub auth_time : ℕ
  pub claims_request : Option ClaimsRequest
  pub expires_at : ℕ

pub record RefreshTokenPayload : Type 0 where
  pub tenant_id : String
  pub client_id : String
  pub subject_id : String
  pub claim : SubjectClaim
  pub scopes : List String
  pub audience : Option String
  pub family : String
  pub method_id : String
  pub method_kind : String
  pub auth_time : ℕ
  pub dpop_jkt : Option String
  pub claims_request : Option ClaimsRequest
  pub issued_at : ℕ
  pub expires_at : ℕ

pub record AccessTokenClaims : Type 0 where
  pub iss : String
  pub sub : String
  pub aud : String
  pub exp : ℕ
  pub iat : ℕ
  pub tid : String
  pub mid : Option String
  pub mkind : Option String
  pub scope : Option String
  pub auth_time : Option ℕ
  -- `cnf.jkt`
  pub cnf : Option String
  pub uic : Option (List String)
  pub claim : SubjectClaim

pub data TokenType : Type 0 where
  bearer dpop : TokenType

pub record TokenResponse : Type 0 where
  pub access_token : String
  pub token_type : TokenType
  pub expires_in : ℕ
  pub refresh_token : Option String
  pub id_token : Option String
  pub scope : String
