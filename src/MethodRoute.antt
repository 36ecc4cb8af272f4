-- ===== src/MethodRoute.antt =====
-- `handleMethodRoute` of packages/openauth/src/domain/method-route.ts: a request of the user agent to
-- the method that owns its flow, between /authorize and the code.
pub mod Laws
use openauth.Prelude.{String, Option, none, some, List, ◌==◌, ◌<>◌}
use openauth.Types.Error.{AuthError, Result, invalid_request}
use openauth.Types.Effect.{Exec, pure, fail, require, ◌>>=◌, ◌>>◌}
use openauth.Types.Audit.{flow_tenant_mismatch}
use openauth.Types.Flow.{FlowRecord}
use openauth.Types.Method.{
  Request, TenantContext, MethodResult, Rendered, challenge, success, denied, error, AuthMethod,
  Factory,
}
use openauth.SessionStore.{read_flow, consume_flow}
use openauth.World.{Env, World, with_sessions}
use openauth.MethodCache.{resolve}
use openauth.MethodDispatch.{DispatchInput, dispatch_method}
use openauth.Flow.{IssuedCode, snapshot, issue_code, audit_failure}
use openauth.Callback.{audited_require}

pub data MethodRouteOutput : Type 0 where
  code_for : IssuedCode → MethodRouteOutput
  next_page : Rendered → MethodRouteOutput
  refused : String → List String → MethodRouteOutput

pub record HandleMethodRouteInput : Type 0 where
  pub tenant : TenantContext
  pub method_id : String
  pub sub_path : String
  pub http_method : String
  pub flow_id : String
  pub cookies : String → Option String

unfoldable pub not_owner : String → FlowRecord → AuthError
not_owner method_id flow =
    invalid_request
      ("method \""
        <> (method_id
            <> ("\" does not own flow \""
                <> (flow.flow_id <> ("\" (expected \"" <> (flow.method_id <> "\")"))))))
      (some "methodId")

module _ (env : Env) (factories : String → Option Factory) (input : HandleMethodRouteInput) where
  unfoldable pub translate : MethodResult → FlowRecord → Exec World MethodRouteOutput
  translate (success s p b) flow = do
    final ← with_sessions (consume_flow env.now flow.flow_id)
    issued ← issue_code env (snapshot env final s p) final.flow_id
    pure (code_for issued)
  translate (challenge r saved) flow = pure (next_page r)
  translate (denied reason cookies) flow = do
    audit_failure env flow reason
    pure (refused reason cookies)
  translate (error e) flow = fail e

  -- Steps 2 and 3
  unfoldable pub route_owner_check : FlowRecord → Exec World (Unit {0})
  route_owner_check flow = do
    audited_require (flow.tenant_id == input.tenant.id)
        (flow_tenant_mismatch input.tenant.id flow.tenant_id flow.flow_id env.now)
        (invalid_request "tenant mismatch" (some "flow"))
    require (flow.method_id == input.method_id) (not_owner input.method_id flow)

  abbrev pub route_dispatch : AuthMethod → FlowRecord → DispatchInput
  route_dispatch method flow = record {
    method = method;
    route = input.http_method <> (" " <> input.sub_path);
    tenant = input.tenant;
    request = input.tenant.raw;
    sub_path = input.sub_path;
    flow = some flow;
    cookies = input.cookies;
    issuer_url = env.issuer_url;
    dispatch = none;
  }

  -- Steps 4 and 5, with the method resolved.
  unfoldable pub route_flow : FlowRecord → Exec World MethodRouteOutput
  route_flow flow = do
    method ← resolve env factories input.tenant.config input.method_id
    result ← dispatch_method env.now (route_dispatch method flow)
    translate result flow

  unfoldable pub handle_method_route : Exec World MethodRouteOutput
  handle_method_route = do
    flow ← with_sessions (read_flow env.now input.flow_id)
    route_owner_check flow
    route_flow flow
