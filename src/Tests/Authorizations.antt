-- ===== src/Tests/Authorizations.antt =====
-- Witnesses for packages/openauth/src/domain/authorize.ts and callback.ts.
use openauth.Prelude.{String, none, some, [], ◌∷◌, ◌≡◌, refl, arith, eq_iff}
use openauth.Types.Error.{err}
use openauth.Types.Tenant.{ClientConfig}
use openauth.StateEnvelope.{mint_state_envelope}
use openauth.StateEnvelope.Laws.{verify_state_envelope-mint_state_envelope}
use openauth.Token.Exchange.{TokenAuthCodeRequest, exchange_code, exchange_payload}
use openauth.TokenStore.{consume_code}
use openauth.World.{with_tokens}
use openauth.Flow.{IssuedCode, issue_code}
use openauth.Flow.RoundTrip.{exchange_code-issue_code}
use openauth.Authorize.{challenge_page, issue_now, start_authorize}
use openauth.Authorize.Admitted.{IsAdmitted, start_authorize-IsAdmitted}
use openauth.Callback.{code_issued, handle_callback}
use openauth.Callback.Once.{replayed, handle_callback-replayed}
use openauth.Tests.Fixtures.{env, world, code_payload, verifier}
use openauth.Tests.Envelopes.{crypto, state_keys, crypto-IsStateCrypto}
use openauth.Tests.Flows.{
  acme_methods, flow_env, page, context, deps, authorize_request, no_cookies, waiting_world,
  callback_input,
}

start_authorize-IsAdmitted_example :
    (client : ClientConfig) × IsAdmitted (authorize_request "pw") acme_methods client
unfolding start_authorize openauth.Authorize.authorize_client openauth.Authorize.authorize_check
    openauth.Authorize.allows_authorization_code openauth.Authorize.validate_scopes
    openauth.Authorize.validate_pkce_requirement openauth.Authorize.pick_method
    openauth.Authorize.with_choice openauth.Authorize.start_flow
    openauth.Authorize.translate_method_result openauth.ClientCredentials.scopes_allowed
    openauth.Mount.callback_target openauth.SessionStore.save_flow openauth.MethodCache.resolve
    openauth.MethodCache.resolve_anew openauth.MethodCache.build_and_remember
    openauth.MethodCache.build_method openauth.MethodDispatch.dispatch_method
    openauth.MethodDispatch.handle openauth.MethodDispatch.run_handler
    openauth.MethodDispatch.surfaced openauth.MethodDispatch.save_state
    openauth.MethodDispatch.scratch_put openauth.MethodDispatch.scope
    openauth.MethodDispatch.scratch_prefix openauth.SessionStore.save_scratch
    openauth.SessionStore.update_flow_method_state
start_authorize-IsAdmitted_example =
    start_authorize-IsAdmitted env deps (authorize_request "pw") context no_cookies world
      (challenge_page page "f1") refl

abbrev issued : IssuedCode
issued = record { code = "c2"; app_redirect_uri = "https://spa.example/cb"; app_state = some "s1" }

abbrev state : String
state = mint_state_envelope crypto state_keys "acme" "f1" "n9"

handle_callback-replayed_example :
    (handle_callback flow_env deps
      (callback_input state)
      (handle_callback flow_env deps (callback_input state) waiting_world).1).0
    ≡ err (replayed "f1")
unfolding openauth.StateEnvelope.find_key openauth.StateEnvelope.extract_callback_state
    mint_state_envelope openauth.StateEnvelope.envelope_object openauth.Tests.Envelopes.stringified
    openauth.Tests.Envelopes.escape openauth.StateEnvelope.envelope_shape
    openauth.Types.Json.get_field openauth.Tests.Envelopes.marked
handle_callback-replayed_example =
    handle_callback-replayed flow_env flow_env deps (callback_input state) (callback_input state)
      state (record { tenant_id = "acme"; flow_id = "f1"; nonce = "n9"; kid = "k1" }) waiting_world
      refl refl
      (verify_state_envelope-mint_state_envelope crypto state_keys state_keys "acme" "f1" "n9"
        crypto-IsStateCrypto refl)

abbrev exchange : TokenAuthCodeRequest
exchange = record {
  code = "c2";
  redirect_uri = "https://spa.example/cb";
  client_id = "spa";
  client_secret = none;
  code_verifier = some verifier;
  dpop_jkt = none;
}

exchange_code-issue_code_example :
    exchange_code env exchange (issue_code env code_payload "f1" world).1
    ≡ exchange_payload env exchange code_payload
        (with_tokens (consume_code 2000 "c2") (issue_code env code_payload "f1" world).1).1
unfolding issue_code openauth.Token.Exchange.save_encrypted_code openauth.TokenStore.save_code
exchange_code-issue_code_example =
    exchange_code-issue_code env env code_payload "f1" world
      (record { code = "c2"; app_redirect_uri = "https://spa.example/cb"; app_state = none })
      exchange (λ k c current e. ground (arith, eq_iff c "sealed")) refl refl (omega arith)
