-- ===== src/Authorize.antt =====
-- packages/openauth/src/domain/authorize.ts: from the request of a relying party to a flow, a signed
-- state and the method's first response. The raw request is that of the tenant context.
pub mod Admitted
pub mod Inline
use openauth.Prelude.{
  ℕ, ◌+◌, String, Bool, true, false, not, ◌&&◌, Option, none, some, List, [], ◌∷◌, ◌==◌, ◌<>◌,
  includes, keep, map, get_or_else, if◌then◌else◌,
}
use openauth.Types.Error.{
  AuthError, Result, ok, err, or_fail, Check, invalid_request, invalid_client, unauthorized_client,
  method_not_found,
}
use openauth.Types.Effect.{Exec, pure, fail, lift, require, check, ◌>>=◌, ◌>>◌}
use openauth.Types.Json.{Json, null}
use openauth.Types.Tenant.{
  GrantType, authorization_code, refresh_token, client_credentials, MethodType, MethodConfig,
  ClientConfig, TenantConfig, pkce_required, find_client,
}
use openauth.Types.Token.{ClaimsRequest}
use openauth.Types.Audit.{authorize_started}
use openauth.Types.Flow.{FlowRecord}
use openauth.Types.Method.{
  Request, TenantContext, MethodResult, Rendered, challenge, success, denied, error, AuthMethod,
}
use openauth.ClientAuth.{truthy}
use openauth.ClientCredentials.{scopes_allowed}
use openauth.StateEnvelope.{mint_state_envelope}
use openauth.Mount.{CallbackTarget, callback_target}
use openauth.SessionStore.{save_flow, consume_flow}
use openauth.World.{Env, World, with_sessions, safe_audit}
use openauth.MethodCache.{resolve}
use openauth.MethodDispatch.{DispatchInput, dispatch_method}
use openauth.Flow.{
  FlowDeps, rejected_promise, error_code, IssuedCode, snapshot, issue_code, audit_failure,
}

abbrev pub default_flow_ttl_ms : ℕ
default_flow_ttl_ms = 600000

-- types/authorization.ts; the tenant's id is that of the context
pub record AuthorizationRequest : Type 0 where
  pub client_id : String
  pub redirect_uri : String
  pub response_type : String
  pub scopes : List String
  pub state : Option String
  pub audience : Option String
  pub method_id : Option String
  pub code_challenge : Option String
  pub code_challenge_method : Option String
  pub prompt : Option (List String)
  pub ui_locales : Option (List String)
  pub nonce : Option String
  pub claims_request : Option ClaimsRequest

pub data AuthorizeOutput : Type 0 where
  -- with the flow's id
  challenge_page : Rendered → String → AuthorizeOutput
  issue_now : IssuedCode → AuthorizeOutput
  denied_page : String → List String → AuthorizeOutput
  -- the id, the kind and the type of each enabled method
  select_method : List (String × String × MethodType) → AuthorizeOutput

-- `grantTypes.includes("authorization_code")`
unfoldable pub allows_authorization_code : List GrantType → Bool
allows_authorization_code [] = false
allows_authorization_code (authorization_code ∷ rest) = true
allows_authorization_code (client_credentials ∷ rest) = allows_authorization_code rest
allows_authorization_code (refresh_token ∷ rest) = allows_authorization_code rest

unfoldable pub validate_scopes : List String → List String → Check
validate_scopes requested allowed = scopes_allowed allowed requested

-- The texts of the errors.
unfoldable pub unknown_client : String → AuthError
unknown_client id = invalid_client ("unknown client \"" <> (id <> "\""))

unfoldable pub unregistered : AuthorizationRequest → ClientConfig → AuthError
unregistered req client =
    invalid_request
      ("redirect_uri \""
        <> (req.redirect_uri <> ("\" not registered for client \"" <> (client.id <> "\""))))
      (some "redirect_uri")

unfoldable pub not_code : AuthorizationRequest → AuthError
not_code req =
    invalid_request
      ("unsupported response_type \"" <> (req.response_type <> "\" — OAuth 2.1 is code-only"))
      (some "response_type")

unfoldable pub grant_refused : ClientConfig → AuthError
grant_refused client =
    unauthorized_client
      ("client \"" <> (client.id <> "\" is not authorized for authorization_code grant"))

unfoldable pub challenge_missing : ClientConfig → AuthError
challenge_missing client =
    invalid_request ("client \"" <> (client.id <> "\" requires PKCE — missing code_challenge"))
      (some "code_challenge")

unfoldable pub not_s256 : String → AuthError
not_s256 m =
    invalid_request ("unsupported code_challenge_method \"" <> (m <> "\" — S256 required"))
      (some "code_challenge_method")

challenge_method_check : Option String → Check
challenge_method_check none = none
challenge_method_check (some m) =
    if m == "" then none else if m == "S256" then none else some (not_s256 m)

unfoldable pub validate_pkce_requirement : AuthorizationRequest → ClientConfig → Check
unfolding challenge_method_check
validate_pkce_requirement req client =
    if pkce_required client.type
    then if truthy req.code_challenge
      then challenge_method_check req.code_challenge_method
      else some (challenge_missing client)
    else none

-- Step 1, after the client is found.
unfoldable pub authorize_check : AuthorizationRequest → ClientConfig → Exec World (Unit {0})
authorize_check req client = do
  require (includes client.redirect_uris req.redirect_uri) (unregistered req client)
  require (req.response_type == "code") (not_code req)
  require (allows_authorization_code client.grant_types) (grant_refused client)
  check (validate_scopes req.scopes client.scopes)
  check (validate_pkce_requirement req client)

abbrev pub enabled_methods : TenantConfig → List MethodConfig
enabled_methods tenant = keep (λ m. m.enabled) tenant.methods

-- Step 2: the method to dispatch to, or those to choose from.
pub data Choice : Type 0 where
  use_method : String → Choice
  choose : List MethodConfig → Choice

only_or_choose : List MethodConfig → Result Choice
only_or_choose [] = err (method_not_found "no auth methods enabled for tenant" none none)
only_or_choose (m ∷ []) = ok (use_method m.id)
only_or_choose (m ∷ n ∷ ms) = ok (choose (m ∷ n ∷ ms))

asked_or_only : Option String → Result Choice → Result Choice
asked_or_only asked (err e) = err e
asked_or_only none (ok c) = ok c
asked_or_only (some id) (ok c) = if id == "" then ok c else ok (use_method id)

unfoldable pub pick_method : AuthorizationRequest → TenantConfig → Result Choice
unfolding only_or_choose asked_or_only
pick_method req tenant = asked_or_only req.method_id (only_or_choose (enabled_methods tenant))

-- `req.codeChallenge ? { challenge, method: "S256" } : undefined`
unfoldable pub client_pkce_of : Option String → Option String
client_pkce_of none = none
client_pkce_of (some c) = if c == "" then none else some c

module _ {Bytes : Type 0} (env : Env) (deps : FlowDeps Bytes) where
  abbrev pub flow_ttl : ℕ
  flow_ttl = get_or_else deps.flow_ttl_ms default_flow_ttl_ms

  unfoldable pub host_for : String → Option String
  host_for tenant_id = elim deps.callback_host_for [ none ↦ none | some f ↦ some (f tenant_id) ]

  abbrev pub flow_of :
      AuthorizationRequest
      → ClientConfig
      → TenantContext
      → AuthMethod
      → String
      → CallbackTarget
      → FlowRecord
  flow_of req client tenant method method_id callback = record {
    flow_id = deps.new_flow_id;
    tenant_id = tenant.id;
    method_id = method_id;
    method_kind = method.kind;
    client_id = client.id;
    app_redirect_uri = req.redirect_uri;
    callback_path = callback.path;
    callback_host = callback.host;
    app_state = req.state;
    scopes = req.scopes;
    audience = req.audience;
    prompt = req.prompt;
    ui_locales = req.ui_locales;
    nonce = deps.new_nonce;
    app_nonce = req.nonce;
    claims_request = req.claims_request;
    client_pkce = client_pkce_of req.code_challenge;
    method_state = null;
    context = some tenant.custom;
    created_at = env.now;
    expires_at = env.now + flow_ttl;
  }

  -- `issueCodeFromInlineSuccess`
  unfoldable pub issue_code_from_inline_success :
      String → Json → FlowRecord → Exec World AuthorizeOutput
  issue_code_from_inline_success provider_subject properties flow = do
    consumed ← with_sessions (consume_flow env.now flow.flow_id)
    issued ← issue_code env (snapshot env consumed provider_subject properties) consumed.flow_id
    pure (issue_now issued)

  unfoldable pub translate_method_result : MethodResult → FlowRecord → Exec World AuthorizeOutput
  translate_method_result (challenge r saved) flow = pure (challenge_page r flow.flow_id)
  translate_method_result (success s p b) flow = issue_code_from_inline_success s p flow
  translate_method_result (denied reason cookies) flow = do
    audit_failure env flow reason
    pure (denied_page reason cookies)
  translate_method_result (error e) flow = do audit_failure env flow (error_code e); fail e

  abbrev pub authorize_dispatch :
      TenantContext
      → (String → Option String)
      → AuthMethod
      → FlowRecord
      → CallbackTarget
      → DispatchInput
  authorize_dispatch tenant cookies method flow callback = record {
    method = method;
    route = "GET /authorize";
    tenant = tenant;
    request = tenant.raw;
    sub_path = "/authorize";
    flow = some flow;
    cookies = cookies;
    issuer_url = env.issuer_url;
    dispatch = some (record {
      state =
          mint_state_envelope deps.crypto deps.state_keys flow.tenant_id flow.flow_id flow.nonce;
      callback_url = callback.url;
      issuer_url = env.issuer_url;
    });
  }

  -- The rest of step 3, and step 4.
  unfoldable pub start_flow :
      TenantContext
      → (String → Option String)
      → AuthMethod
      → FlowRecord
      → CallbackTarget
      → Exec World AuthorizeOutput
  start_flow tenant cookies method flow callback = do
    with_sessions (save_flow env.now flow.flow_id flow flow_ttl)
    safe_audit (
        authorize_started flow.tenant_id flow.client_id flow.method_id flow.method_kind flow.flow_id
          env.now)
    result ← dispatch_method env.now (authorize_dispatch tenant cookies method flow callback)
    translate_method_result result flow

  unfoldable pub with_choice :
      AuthorizationRequest
      → TenantContext
      → (String → Option String)
      → ClientConfig
      → Choice
      → Exec World AuthorizeOutput
  unfolding host_for
  with_choice req tenant cookies client (choose ms) =
      pure (select_method (map (λ (m : MethodConfig). (m.id, m.kind, m.type)) ms))
  with_choice req tenant cookies client (use_method method_id) = do
    method ← resolve env deps.factories tenant.config method_id
    callback ← lift (
        or_fail rejected_promise
          (callback_target deps.parse_url env.issuer_url method_id (host_for tenant.id)))
    start_flow tenant cookies method (flow_of req client tenant method method_id callback) callback

  unfoldable pub authorize_client :
      AuthorizationRequest
      → TenantContext
      → (String → Option String)
      → ClientConfig
      → Exec World AuthorizeOutput
  authorize_client req tenant cookies client = do
    authorize_check req client
    choice ← lift (pick_method req tenant.config)
    with_choice req tenant cookies client choice

  unfoldable pub start_authorize :
      AuthorizationRequest → TenantContext → (String → Option String) → Exec World AuthorizeOutput
  start_authorize req tenant cookies = do
    client ← lift (or_fail (unknown_client req.client_id) (find_client tenant.config req.client_id))
    authorize_client req tenant cookies client
