-- ===== src/Types/Flow.antt =====
-- packages/openauth/src/types/flow.ts, and the records of ports/session-store.ts. The response type of a
-- flow, which is the literal "code", is not a field; nor is the metadata of a session.
use openauth.Prelude.{ℕ, String, Option, List}
use openauth.Types.Json.{Json, Fields}
use openauth.Types.Token.{ClaimsRequest}

pub record FlowRecord : Type 0 where
  pub flow_id : String
  pub tenant_id : String
  pub method_id : String
  pub method_kind : String
  pub client_id : String
  pub app_redirect_uri : String
  pub callback_path : String
  pub callback_host : String
  pub app_state : Option String
  pub scopes : List String
  pub audience : Option String
  pub prompt : Option (List String)
  pub ui_locales : Option (List String)
  pub nonce : String
  pub app_nonce : Option String
  pub claims_request : Option ClaimsRequest
  -- the S256 challenge
  pub client_pkce : Option String
  -- `null` until the method saves one
  pub method_state : Json
  pub context : Option Fields
  pub created_at : ℕ
  pub expires_at : ℕ

pub record SessionRecord : Type 0 where
  pub session_id : String
  pub tenant_id : String
  pub subject_id : String
  pub issued_at : ℕ
  pub expires_at : ℕ

pub record ParRecord : Type 0 where
  pub request_uri : String
  pub params : List (String × String)
  pub client_id : String
  pub issued_at : ℕ
  pub expires_at : ℕ
