-- ===== src/Flow.antt =====
-- What packages/openauth/src/domain/authorize.ts and callback.ts share: their surroundings, and the
-- code that a successful authentication is given, which is the flow's snapshot.
pub mod Issued
pub mod RoundTrip
use openauth.Prelude.{ℕ, ◌+◌, ◌/◌, String, Option, none, some, List}
use openauth.Types.Error.{
  AuthError, Result, ok, err, invalid_request, invalid_client, invalid_grant, unauthorized_client,
  unsupported_grant_type, invalid_scope, access_denied, unknown_state, server_error,
  tenant_not_found, invalid_target, method_not_found, internal_error, conflict, invalid_dpop_proof,
}
use openauth.Types.Effect.{Exec, pure, ◌>>=◌, ◌>>◌}
use openauth.Types.Json.{Json, Fields}
use openauth.Types.Token.{CodePayload}
use openauth.Types.Audit.{authorize_succeeded, authorize_failed}
use openauth.Types.Flow.{FlowRecord}
use openauth.Types.Method.{Request, Factory}
use openauth.StateEnvelope.{StateCrypto, StateKeyRing}
use openauth.Mount.{ParseUrl}
use openauth.TokenStore.{auth_code_ttl_ms}
use openauth.World.{Env, World, safe_audit}
use openauth.Token.Exchange.{save_encrypted_code}

-- `StartAuthorizeDeps` and `HandleCallbackDeps`, beside the `Env` of a request, with the random
-- values that a request draws; `none` in `custom_context` where the hook throws.
pub record FlowDeps (Bytes : Type 0) : Type 0 where
  pub crypto : StateCrypto Bytes
  pub state_keys : StateKeyRing Bytes
  pub parse_url : ParseUrl
  pub factories : String → Option Factory
  pub callback_host_for : Option (String → String)
  pub custom_context : Option (Request → Option Fields)
  pub new_flow_id : String
  pub new_nonce : String
  pub flow_ttl_ms : Option ℕ

-- What a caller sees when one of the functions throws: its promise is rejected, with no result.
abbrev pub rejected_promise : AuthError
rejected_promise = server_error "the promise is rejected"

-- `error.code`
abbrev pub error_code : AuthError → String
error_code (invalid_request d f) = "invalid_request"
error_code (invalid_client d) = "invalid_client"
error_code (invalid_grant d s) = "invalid_grant"
error_code (unauthorized_client d) = "unauthorized_client"
error_code (unsupported_grant_type d) = "unsupported_grant_type"
error_code (invalid_scope d) = "invalid_scope"
error_code (access_denied d) = "access_denied"
error_code (unknown_state d) = "unknown_state"
error_code (server_error d) = "server_error"
error_code (tenant_not_found d t) = "tenant_not_found"
error_code (invalid_target d) = "invalid_target"
error_code (method_not_found d i k) = "method_not_found"
error_code (internal_error d) = "internal_error"
error_code (conflict d a) = "conflict"
error_code (invalid_dpop_proof d j) = "invalid_dpop_proof"

pub record IssuedCode : Type 0 where
  pub code : String
  pub app_redirect_uri : String
  pub app_state : Option String

module _ (env : Env) where
  abbrev pub snapshot : FlowRecord → String → Json → CodePayload
  snapshot flow provider_subject properties = record {
    tenant_id = flow.tenant_id;
    client_id = flow.client_id;
    app_redirect_uri = flow.app_redirect_uri;
    app_state = flow.app_state;
    scopes = flow.scopes;
    audience = flow.audience;
    client_pkce = flow.client_pkce;
    method_id = flow.method_id;
    method_kind = flow.method_kind;
    context = flow.context;
    provider_subject = provider_subject;
    properties = properties;
    app_nonce = flow.app_nonce;
    auth_time = env.now / 1000;
    claims_request = flow.claims_request;
    expires_at = env.now + auth_code_ttl_ms;
  }

  -- Save a payload under the new code, and audit; the flow's id is "" where there is no flow.
  unfoldable pub issue_code : CodePayload → String → Exec World IssuedCode
  issue_code payload flow_id = do
    save_encrypted_code env env.new_code payload auth_code_ttl_ms
    safe_audit (
        authorize_succeeded payload.tenant_id payload.client_id payload.method_id
          payload.method_kind flow_id payload.provider_subject env.now)
    pure (record {
      code = env.new_code;
      app_redirect_uri = payload.app_redirect_uri;
      app_state = payload.app_state;
    })

  unfoldable pub audit_failure : FlowRecord → String → Exec World (Unit {0})
  audit_failure flow reason = safe_audit (
      authorize_failed flow.tenant_id flow.client_id flow.method_id flow.method_kind flow.flow_id
        reason env.now)
