-- ===== src/Tests/Methods.antt =====
-- Witnesses for packages/openauth/src/domain/method-cache.ts, method-dispatch.ts and method-route.ts.
use openauth.Prelude.{String, none, some, ◌≡◌, ◌≢◌, refl, arith, eq_iff}
use openauth.Types.Error.{err}
use openauth.Types.Json.{str}
use openauth.Types.Method.{Handling, returns, puts, gets}
use openauth.SessionStore.{new_session_store}
use openauth.MethodCache.{no_factory, known_disabled, resolve}
use openauth.MethodCache.Failed.{resolve-failed}
use openauth.MethodDispatch.{scratch_prefix, scope, run_handler, dispatch_method}
use openauth.MethodDispatch.Isolated.{Spares, run_handler-isolated}
use openauth.MethodDispatch.Durable.{IsSaved, dispatch_method-IsSaved}
use openauth.MethodRoute.{handle_method_route}
use openauth.MethodRoute.Laws.{IsKeyed, IsRouted, handle_method_route-IsRouted}
use openauth.Authorize.{authorize_dispatch}
use openauth.Tests.Fixtures.{env, world}
use openauth.Tests.Flows.{
  factories, acme_methods, broken_config, login, page, context, deps, no_cookies, waiting,
  waiting_sessions, waiting_world, route_input,
}

resolve-failed_example :
    ((resolve env factories acme_methods "sms" world).0 ≡ err (no_factory broken_config))
    × ((resolve env factories acme_methods "sms"
          (resolve env factories acme_methods "sms" world).1).0
        ≡ err (known_disabled "sms"))
unfolding openauth.MethodCache.build_method
resolve-failed_example =
    resolve-failed env factories acme_methods "sms" acme_methods broken_config
      (no_factory broken_config) world refl refl refl refl refl refl

abbrev marks : Handling
marks = puts "seen" "1" 1000 (λ a. gets "seen" (λ b. returns none))

different : let a : String = "pw" in let b : String = "saml" in a ≢ b
different e = ground (arith, eq_iff "pw" "saml")

run_handler-isolated_example :
    Spares
      (scope (scratch_prefix "acme" "saml") "seen")
      waiting_sessions
      (run_handler 1000 (scratch_prefix "acme" "pw") marks waiting_sessions).1
run_handler-isolated_example =
    run_handler-isolated 1000 "acme" "pw" "acme" "saml" "seen" marks waiting_sessions refl refl refl
      refl (λ e. different)

dispatch_method-IsSaved_example :
    IsSaved 2000 "f1"
      (str "sent")
      waiting_sessions
      (dispatch_method 2000
        (authorize_dispatch env deps context no_cookies login waiting
          (record { url = "u"; host = "h"; path = "p" }))
        waiting_world).1.sessions
unfolding dispatch_method openauth.MethodDispatch.handle run_handler
    openauth.MethodDispatch.surfaced openauth.SessionStore.update_flow_method_state
    openauth.MethodDispatch.scratch_put openauth.SessionStore.save_scratch
dispatch_method-IsSaved_example =
    dispatch_method-IsSaved 2000
      (authorize_dispatch env deps context no_cookies login waiting
        (record { url = "u"; host = "h"; path = "p" }))
      page waiting (str "sent") waiting_world refl refl

waiting_sessions-IsKeyed : IsKeyed waiting_sessions
waiting_sessions-IsKeyed k row e = ground (arith, eq_iff "f1" k)

handle_method_route-IsRouted_example :
    IsRouted env route_input waiting_world
      (handle_method_route env factories route_input waiting_world).1
      (record { code = "c2"; app_redirect_uri = "https://spa.example/cb"; app_state = some "s1" })
unfolding handle_method_route openauth.SessionStore.read_flow openauth.MethodRoute.route_owner_check
    openauth.Callback.audited_require openauth.MethodRoute.route_flow resolve
    openauth.MethodCache.resolve_anew openauth.MethodCache.build_and_remember
    openauth.MethodCache.build_method dispatch_method openauth.MethodDispatch.handle run_handler
    openauth.MethodDispatch.surfaced openauth.MethodRoute.translate
    openauth.SessionStore.consume_flow openauth.Flow.issue_code
    openauth.Token.Exchange.save_encrypted_code openauth.TokenStore.save_code
handle_method_route-IsRouted_example =
    handle_method_route-IsRouted env factories route_input waiting_world
      (record { code = "c2"; app_redirect_uri = "https://spa.example/cb"; app_state = some "s1" })
      waiting_sessions-IsKeyed refl
