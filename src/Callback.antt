-- ===== src/Callback.antt =====
-- packages/openauth/src/domain/callback.ts: the upstream provider's redirect back. A state that
-- verifies leads to its flow, which is consumed and compared with the request; without one, a method
-- that opted in may answer an unsolicited callback.
pub mod Resumed
pub mod Unsolicited
pub mod Sound
pub mod Once
use openauth.Prelude.{
  String, Bool, true, false, not, Option, none, some, List, [], ◌∷◌, ◌==◌, ◌<>◌, ◌+◌, ◌/◌, includes,
  segments, if◌then◌else◌,
}
use openauth.Types.Error.{
  AuthError, Result, ok, err, or_fail, description, invalid_request, internal_error,
}
use openauth.Types.Effect.{Exec, pure, fail, lift, attempt, require, ◌>>=◌, ◌>>◌}
use openauth.Types.Json.{Json, Fields, end}
use openauth.Types.Tenant.{ClientConfig, TenantConfig, find_client}
use openauth.Types.Token.{CodePayload}
use openauth.Types.Audit.{
  AuditEvent, authorize_failed, flow_replay_attempt, flow_tenant_mismatch, flow_callback_mismatch,
}
use openauth.Types.Flow.{FlowRecord}
use openauth.Types.Method.{
  Request, TenantContext, MethodResult, Rendered, UnsolicitedBinding, challenge, success, denied,
  error, AuthMethod,
}
use openauth.StateEnvelope.{StateEnvelope, verify_state_envelope, extract_callback_state}
use openauth.Mount.{CallbackTarget, callback_target, normalize_path}
use openauth.SessionStore.{consume_flow}
use openauth.TokenStore.{auth_code_ttl_ms}
use openauth.World.{Env, World, with_sessions, safe_audit}
use openauth.MethodCache.{resolve}
use openauth.MethodDispatch.{DispatchInput, dispatch_method}
use openauth.Flow.{
  FlowDeps, rejected_promise, error_code, IssuedCode, snapshot, issue_code, audit_failure,
}

pub data CallbackOutput : Type 0 where
  code_issued : IssuedCode → CallbackOutput
  challenge_again : Rendered → CallbackOutput
  denied_again : String → List String → CallbackOutput

pub record HandleCallbackInput : Type 0 where
  pub raw_request : Request
  pub cookies : String → Option String
  pub tenant : Option TenantContext

abbrev pub state_error : String → AuthError
state_error text = invalid_request text (some "state")

-- `await safeAudit(…); return err(…)`, where the test fails
unfoldable pub audited_require : Bool → AuditEvent → AuthError → Exec World (Unit {0})
audited_require true event e = pure tt
audited_require false event e = do safe_audit event; fail e

-- The texts of the errors.
unfoldable pub binding_missing : String → AuthError
binding_missing method_id = internal_error (
    "method \""
    <> (method_id <> "\" handled an unsolicited callback but returned no unsolicitedBinding"))

unfoldable pub binding_unknown : UnsolicitedBinding → AuthError
binding_unknown b =
    invalid_request ("IdP-initiated binding references unknown client \"" <> (b.client_id <> "\""))
      none

unfoldable pub binding_unregistered : UnsolicitedBinding → AuthError
binding_unregistered b =
    invalid_request
      ("IdP-initiated redirect_uri \""
        <> (b.redirect_uri <> ("\" is not registered for client \"" <> (b.client_id <> "\""))))
      none

module _ {Bytes : Type 0} (env : Env) (deps : FlowDeps Bytes) (input : HandleCallbackInput) where
  unfoldable pub translate : MethodResult → FlowRecord → Exec World CallbackOutput
  translate (success s p b) flow = do
    issued ← issue_code env (snapshot env flow s p) flow.flow_id
    pure (code_issued issued)
  translate (challenge r saved) flow = pure (challenge_again r)
  translate (denied reason cookies) flow = do
    audit_failure env flow reason
    pure (denied_again reason cookies)
  translate (error e) flow = do audit_failure env flow (error_code e); fail e

  abbrev pub callback_mismatch : FlowRecord → AuditEvent
  callback_mismatch flow =
      flow_callback_mismatch flow.tenant_id flow.flow_id flow.callback_host flow.callback_path
        input.raw_request.host input.raw_request.pathname env.now

  -- Step 3
  unfoldable pub consistency_check : StateEnvelope → FlowRecord → Exec World (Unit {0})
  consistency_check envelope flow = do
    audited_require (envelope.tenant_id == flow.tenant_id)
        (flow_tenant_mismatch envelope.tenant_id flow.tenant_id flow.flow_id env.now)
        (state_error "tenant mismatch")
    require (envelope.nonce == flow.nonce) (state_error "nonce mismatch")
    audited_require (input.raw_request.host == flow.callback_host) (callback_mismatch flow)
        (state_error "host mismatch")
    audited_require (normalize_path input.raw_request.pathname == normalize_path flow.callback_path)
        (callback_mismatch flow) (state_error "path mismatch")

  custom_of : Option (Request → Option Fields) → Result Fields
  custom_of none = ok end
  custom_of (some hook) = or_fail rejected_promise (hook input.raw_request)

  abbrev pub callback_dispatch : TenantContext → AuthMethod → FlowRecord → DispatchInput
  callback_dispatch tenant method flow = record {
    method = method;
    route = "GET /callback";
    tenant = tenant;
    request = input.raw_request;
    sub_path = "/callback";
    flow = some flow;
    cookies = input.cookies;
    issuer_url = env.issuer_url;
    dispatch = none;
  }

  -- Steps 4 to 6
  unfoldable pub resume_flow : FlowRecord → Exec World CallbackOutput
  unfolding custom_of
  resume_flow flow = do
    config ← lift (env.config flow.tenant_id)
    custom ← lift (custom_of deps.custom_context)
    method ← resolve env deps.factories config flow.method_id
    result ← dispatch_method env.now (
        callback_dispatch
          (record {
            id = flow.tenant_id;
            config = config;
            raw = input.raw_request;
            custom = custom;
          })
          method flow)
    translate result flow

  -- `consumeFlow`, with its error restated and audited
  flow_or_audited : StateEnvelope → Result FlowRecord → Exec World FlowRecord
  flow_or_audited envelope (ok flow) = pure flow
  flow_or_audited envelope (err e) = do
    safe_audit (flow_replay_attempt (some envelope.tenant_id) envelope.flow_id env.now)
    fail (state_error (description e))

  -- Steps 2 to 6, from a verified envelope.
  unfoldable pub with_envelope : StateEnvelope → Exec World CallbackOutput
  unfolding flow_or_audited
  with_envelope envelope = do
    taken ← attempt (with_sessions (consume_flow env.now envelope.flow_id))
    flow ← flow_or_audited envelope taken
    consistency_check envelope flow
    resume_flow flow

  abbrev pub unsolicited_payload :
      TenantContext → AuthMethod → String → UnsolicitedBinding → String → Json → CodePayload
  unsolicited_payload tenant method method_id binding subject properties = record {
    tenant_id = tenant.id;
    client_id = binding.client_id;
    app_redirect_uri = binding.redirect_uri;
    app_state = none;
    scopes = binding.scopes;
    audience = none;
    client_pkce = none;
    method_id = method_id;
    method_kind = method.kind;
    context = some tenant.custom;
    provider_subject = subject;
    properties = properties;
    app_nonce = none;
    auth_time = env.now / 1000;
    claims_request = none;
    expires_at = env.now + auth_code_ttl_ms;
  }

  unfoldable pub issue_unsolicited :
      TenantContext
      → AuthMethod
      → String
      → UnsolicitedBinding
      → String
      → Json
      → Exec World CallbackOutput
  issue_unsolicited tenant method method_id binding subject properties = do
    client ← lift (or_fail (binding_unknown binding) (find_client tenant.config binding.client_id))
    require (includes client.redirect_uris binding.redirect_uri) (binding_unregistered binding)
    issued ←
        issue_code env (unsolicited_payload tenant method method_id binding subject properties) ""
    pure (code_issued issued)

  unfoldable pub translate_unsolicited :
      TenantContext → AuthMethod → String → MethodResult → Exec World CallbackOutput
  translate_unsolicited tenant method method_id (challenge r saved) = pure (challenge_again r)
  translate_unsolicited tenant method method_id (denied reason cookies) = do
    safe_audit (
        authorize_failed tenant.id "idp-initiated" method_id method.kind "idp-initiated" reason
          env.now)
    pure (denied_again reason cookies)
  translate_unsolicited tenant method method_id (error e) = fail e
  translate_unsolicited tenant method method_id (success s p none) =
      fail (binding_missing method_id)
  translate_unsolicited tenant method method_id (success s p (some b)) =
      issue_unsolicited tenant method method_id b s p

  abbrev pub unsolicited_dispatch : TenantContext → AuthMethod → CallbackTarget → DispatchInput
  unsolicited_dispatch tenant method callback = record {
    method = method;
    route = "GET /callback";
    tenant = tenant;
    request = input.raw_request;
    sub_path = "/callback";
    flow = none;
    cookies = input.cookies;
    issuer_url = env.issuer_url;
    dispatch =
        some (record { state = ""; callback_url = callback.url; issuer_url = env.issuer_url });
  }

  unfoldable pub unsolicited : TenantContext → AuthMethod → String → Exec World CallbackOutput
  unsolicited tenant method method_id = do
    callback ← lift (
        or_fail rejected_promise
          (callback_target deps.parse_url env.issuer_url method_id (some input.raw_request.host)))
    result ← dispatch_method env.now (unsolicited_dispatch tenant method callback)
    translate_unsolicited tenant method method_id result

  -- `none` for `null`
  answered_if : Bool → TenantContext → AuthMethod → String → Exec World (Option CallbackOutput)
  answered_if true tenant method method_id = do
    out ← unsolicited tenant method method_id
    pure (some out)
  answered_if false tenant method method_id = pure none

  if_opted_in : TenantContext → String → Result AuthMethod → Exec World (Option CallbackOutput)
  unfolding answered_if
  if_opted_in tenant method_id (err e) = pure none
  if_opted_in tenant method_id (ok method) =
      answered_if method.unsolicited_callback tenant method method_id

  -- the id in `/cb/<id>`
  unfoldable pub callback_method_id : List String → Option String
  callback_method_id [] = none
  callback_method_id (s ∷ []) = none
  callback_method_id (s ∷ id ∷ rest) = if s == "cb" then some id else none

  try_for : Option TenantContext → Option String → Exec World (Option CallbackOutput)
  unfolding if_opted_in
  try_for none id = pure none
  try_for (some tenant) none = pure none
  try_for (some tenant) (some method_id) = do
    method ← attempt (resolve env deps.factories tenant.config method_id)
    if_opted_in tenant method_id method

  unfoldable pub try_idp_initiated : Exec World (Option CallbackOutput)
  unfolding try_for
  try_idp_initiated =
      if input.raw_request.method == "POST"
      then try_for input.tenant (callback_method_id (segments 47 input.raw_request.pathname))
      else pure none

  -- The caller's part for `null`.
  or_else : Exec World CallbackOutput → Option CallbackOutput → Exec World CallbackOutput
  or_else other none = other
  or_else other (some out) = pure out

  unfoldable pub without_envelope : Exec World CallbackOutput → Exec World CallbackOutput
  unfolding or_else
  without_envelope other = do idp ← try_idp_initiated; or_else other idp

  bad_state : AuthError → Exec World CallbackOutput
  bad_state e = do
    safe_audit (flow_replay_attempt none "unknown" env.now)
    fail (state_error (description e))

  unfoldable pub by_envelope : Result StateEnvelope → Exec World CallbackOutput
  unfolding bad_state
  by_envelope (ok envelope) = with_envelope envelope
  by_envelope (err e) = without_envelope (bad_state e)

  unfoldable pub by_state : Option String → Exec World CallbackOutput
  by_state none = without_envelope (fail (state_error "missing state parameter"))
  by_state (some state) = by_envelope (verify_state_envelope deps.crypto deps.state_keys state)

  unfoldable pub handle_callback : Exec World CallbackOutput
  handle_callback = by_state (extract_callback_state input.raw_request)
