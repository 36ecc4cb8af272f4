-- ===== src/MethodDispatch.antt =====
-- packages/openauth/src/domain/method-dispatch.ts: a method's handler is run against its own part of
-- the scratch store, and what it wants to keep is saved before its response is returned.
pub mod Isolated
pub mod Durable
use openauth.Prelude.{ℕ, String, Option, none, some, ◌<>◌, eqb, if◌then◌else◌}
use openauth.Types.Error.{
  AuthError, Result, ok, err, or_fail, invalid_request, internal_error, server_error,
}
use openauth.Types.Effect.{Exec, pure, fail, lift, ◌>>=◌, ◌>>◌}
use openauth.Types.Json.{Json, null}
use openauth.Types.Flow.{FlowRecord}
use openauth.Types.Method.{
  Request, TenantContext, MethodDispatchData, MethodContext, MethodResult, challenge, success,
  denied, error, Handling, returns, puts, gets, deletes, AuthMethod,
}
use openauth.SessionStore.{
  SessionStore, save_scratch, read_scratch, delete_scratch, update_flow_method_state,
}
use openauth.World.{World, with_sessions}

pub record DispatchInput : Type 0 where
  pub method : AuthMethod
  pub route : String
  pub tenant : TenantContext
  pub request : Request
  pub sub_path : String
  pub flow : Option FlowRecord
  pub cookies : String → Option String
  pub issuer_url : String
  pub dispatch : Option MethodDispatchData

-- `scratch:<tenantId>:<methodId>:`
unfoldable pub scratch_prefix : String → String → String
scratch_prefix tenant_id method_id = "scratch:" <> (tenant_id <> (":" <> (method_id <> ":")))

unfoldable pub scope : String → String → String
scope prefix key = prefix <> key

unfoldable pub no_handler : DispatchInput → AuthError
no_handler input =
    invalid_request
      ("method \""
        <> (input.method.id <> ("\" has no handler for route \"" <> (input.route <> "\""))))
      none

unfoldable pub handler_threw : DispatchInput → AuthError
handler_threw input =
    server_error (
      "method \"" <> (input.method.id <> ("\" handler threw on route \"" <> (input.route <> "\""))))

unfoldable pub state_without_flow : DispatchInput → AuthError
state_without_flow input =
    internal_error
      ("method \"" <> (input.method.id <> "\" returned saveMethodState without an active flow"))

abbrev pub put_ttl_refused : AuthError
put_ttl_refused = internal_error "methodScratch.put: ttlMs must be positive, got 0"

module _ (now : ℕ) where
  -- The methods of `buildMethodScratch`, over a store that has the scratch operations.
  unfoldable pub scratch_put :
      String → String → String → ℕ → SessionStore → Result (Unit {0}) × SessionStore
  scratch_put prefix key value ttl s =
      if eqb ttl 0
      then (err put_ttl_refused, s)
      else save_scratch now (scope prefix key) value ttl s

  unfoldable pub scratch_get : String → String → SessionStore → Result String × SessionStore
  scratch_get prefix key s = read_scratch now (scope prefix key) s

  unfoldable pub scratch_delete : String → String → SessionStore → Result (Unit {0}) × SessionStore
  scratch_delete prefix key s = delete_scratch (scope prefix key) s

  -- `await handler(ctx)`
  unfoldable pub run_handler : String → Handling → SessionStore → Option MethodResult × SessionStore
  run_handler prefix (returns r) s = (r, s)
  run_handler prefix (puts key value ttl next) s =
      let a = scratch_put prefix key value ttl s in run_handler prefix (next a.0) a.1
  run_handler prefix (gets key next) s =
      let a = scratch_get prefix key s in run_handler prefix (next a.0) a.1
  run_handler prefix (deletes key next) s =
      let a = scratch_delete prefix key s in run_handler prefix (next a.0) a.1

  abbrev pub method_state_of : Option FlowRecord → Json
  method_state_of none = null
  method_state_of (some flow) = flow.method_state

  abbrev pub context_of : DispatchInput → MethodContext
  context_of input = record {
    request = input.request;
    issuer_url = input.issuer_url;
    sub_path = input.sub_path;
    tenant = input.tenant;
    flow = input.flow;
    method_state = method_state_of input.flow;
    cookies = input.cookies;
    dispatch = input.dispatch;
  }

  unfoldable pub save_state : DispatchInput → Option FlowRecord → Json → Exec World (Unit {0})
  save_state input none state = fail (state_without_flow input)
  save_state input (some flow) state =
      with_sessions (update_flow_method_state now flow.flow_id state)

  unfoldable pub surfaced : DispatchInput → MethodResult → Exec World MethodResult
  unfolding save_state
  surfaced input (challenge r (some state)) = do
    save_state input input.flow state
    pure (challenge r (some state))
  surfaced input (challenge r none) = pure (challenge r none)
  surfaced input (success s p b) = pure (success s p b)
  surfaced input (denied r c) = pure (denied r c)
  surfaced input (error e) = pure (error e)

  unfoldable pub handle : DispatchInput → (MethodContext → Handling) → Exec World MethodResult
  handle input handler w =
      let ran =
        run_handler (scratch_prefix input.tenant.id input.method.id) (handler (context_of input))
          w.sessions in
      (or_fail (handler_threw input) ran.0, record w { sessions = ran.1 })

  unfoldable pub dispatch_method : DispatchInput → Exec World MethodResult
  dispatch_method input = do
    handler ← lift (or_fail (no_handler input) (input.method.routes input.route))
    result ← handle input handler
    surfaced input result
