-- ===== src/Authorize/Inline.antt =====
-- A method that succeeds at once: the code that is issued is for what the request asked. About
-- packages/openauth/src/domain/authorize.ts.
use openauth.Prelude.{ℕ, ◌+◌, String, false, none, some, ◌≡◌, leb, ◌==◌, if◌then◌else◌}
use openauth.Types.Error.{ok}
use openauth.Types.Json.{Json}
use openauth.Types.Tenant.{ClientConfig}
use openauth.Types.Flow.{FlowRecord}
use openauth.Types.Token.{CodePayload}
use openauth.Types.Method.{TenantContext, challenge, AuthMethod}
use openauth.Mount.{CallbackTarget, callback_target}
use openauth.SessionStore.{SessionStore}
use openauth.World.{Env, World}
use openauth.MethodCache.{resolve}
use openauth.Flow.{FlowDeps, IssuedCode}
use openauth.Flow.Issued.{IsOfFlow, IsIssued}
use openauth.Authorize.{AuthorizationRequest, host_for}
use openauth.Authorize.Admitted.{IsAdmitted}

-- The code holds this flow's snapshot, and the flow is used up.
pub record IsSnapshot (env : Env) (flow : FlowRecord) (w' : World) (r : IssuedCode) : Type 0 where
  pub subject : String
  pub properties : Json
  pub before : World
  pub payload : CodePayload
  pub of_flow : IsOfFlow env flow subject properties payload
  pub issued : IsIssued env payload before w' r
  pub used_up : w'.sessions.flows flow.flow_id ≡ none

-- The flow is held, and not expired.
abbrev Holds : Env → FlowRecord → SessionStore → Type 0
Holds env flow s =
    (at : ℕ) × (s.flows flow.flow_id ≡ some (record { record_of = flow; expires_at = at }))
    × (leb at env.now ≡ false)

-- The flow is the request's own.
pub record IsFlowOf {Bytes : Type 0} (env : Env) (deps : FlowDeps Bytes)
    (req : AuthorizationRequest) (tenant : TenantContext) (method : AuthMethod) (method_id : String)
    (callback : CallbackTarget) (flow : FlowRecord) : Type 0 where
  pub id : flow.flow_id ≡ deps.new_flow_id
  pub in_tenant : flow.tenant_id ≡ tenant.id
  pub by_method : flow.method_id ≡ method_id
  pub kind : flow.method_kind ≡ method.kind
  pub to_client : flow.client_id ≡ req.client_id
  pub redirect : flow.app_redirect_uri ≡ req.redirect_uri
  pub path : flow.callback_path ≡ callback.path
  pub host : flow.callback_host ≡ callback.host
  pub state : flow.app_state ≡ req.state
  pub scopes : flow.scopes ≡ req.scopes
  pub audience : flow.audience ≡ req.audience
  pub prompt : flow.prompt ≡ req.prompt
  pub locales : flow.ui_locales ≡ req.ui_locales
  pub nonce : flow.nonce ≡ deps.new_nonce
  pub app_nonce : flow.app_nonce ≡ req.nonce
  pub asked : flow.claims_request ≡ req.claims_request
  pub context : flow.context ≡ some tenant.custom
  pub created : flow.created_at ≡ env.now
  pub challenge :
      flow.client_pkce
      ≡ (elim req.code_challenge [ none ↦ none | some c ↦ if c == "" then none else some c ])
  -- ten minutes where the host says nothing
  pub expires :
      flow.expires_at ≡ env.now + (elim deps.flow_ttl_ms [ none ↦ 600000 | some ttl ↦ ttl ])

-- Which code a request was given, and why.
pub record IsIssuedAtOnce {Bytes : Type 0} (env : Env) (deps : FlowDeps Bytes)
    (req : AuthorizationRequest) (tenant : TenantContext) (w' : World) (r : IssuedCode)
    : Type 0 where
  pub client : ClientConfig
  pub method : AuthMethod
  pub method_id : String
  pub callback : CallbackTarget
  pub admitted : IsAdmitted req tenant.config client
  pub callback_at :
      callback_target deps.parse_url env.issuer_url method_id (host_for env deps tenant.id)
      ≡ some callback
  pub at : World
  pub resolved : (resolve env deps.factories tenant.config method_id at).0 ≡ ok method
  pub flow : FlowRecord
  pub of_request : IsFlowOf env deps req tenant method method_id callback flow
  pub snapshot_of : IsSnapshot env flow w' r
