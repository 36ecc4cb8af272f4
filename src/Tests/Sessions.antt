-- ===== src/Tests/Sessions.antt =====
-- Witnesses for packages/openauth/src/adapters/memory/session-store.ts, domain/state-envelope.ts and
-- domain/par.ts.
use openauth.Prelude.{ℕ, ◌+◌, List, ◌≤◌, none, some, [], ◌∷◌, ◌≡◌, refl, arith}
use openauth.Types.Error.{ok}
use openauth.Types.Json.{str}
use openauth.StateEnvelope.{mint_state_envelope, verify_state_envelope}
use openauth.StateEnvelope.Laws.{
  verify_state_envelope-mint_state_envelope, IsVerified, verify_state_envelope-IsVerified,
}
use openauth.SessionStore.{new_session_store}
use openauth.SessionStore.Ideal.{
  Call, view, saves_flow, updates_flow, consumes_flow, saves_scratch, reads_scratch,
}
use openauth.SessionStore.Refines.{answers, ideal_answers, answers-eq-ideal_answers}
use openauth.SessionStore.Once.{flows_won, flow_left, flows_saved, flows_won-le}
use openauth.Par.{ParRequest, push_authorization_request}
use openauth.Par.Laws.{IsPushed, push_authorization_request-IsPushed}
use openauth.Tests.Platforms.{platform, platform-IsUtf8}
use openauth.Tests.Fixtures.{acme}
use openauth.Tests.Envelopes.{crypto, state_keys, crypto-IsStateCrypto}
use openauth.Tests.Flows.{waiting}

abbrev calls : List (ℕ × Call)
calls =
    (1000, saves_flow "f1" waiting 600)
    ∷ (1100, updates_flow "f1" (str "sent"))
    ∷ (1200, saves_scratch "a" "1" 50)
    ∷ (1250, reads_scratch "a")
    ∷ (1300, consumes_flow "f1")
    ∷ (1400, consumes_flow "f1")
    ∷ []

answers-eq-ideal_answers_example :
    answers new_session_store calls ≡ ideal_answers (view new_session_store) calls
answers-eq-ideal_answers_example =
    answers-eq-ideal_answers new_session_store calls
      (omega arith, (omega arith, (omega arith, (omega arith, (omega arith, (omega arith, tt))))))

flows_won-le_example :
    flows_won "f1" new_session_store calls
    ≤ flow_left "f1" new_session_store + flows_saved "f1" calls
flows_won-le_example = flows_won-le "f1" new_session_store calls

verify_state_envelope-mint_state_envelope_example :
    verify_state_envelope crypto state_keys
      (mint_state_envelope crypto state_keys "acme" "f.1" "nonce")
    ≡ ok (record { tenant_id = "acme"; flow_id = "f.1"; nonce = "nonce"; kid = "k1" })
unfolding openauth.StateEnvelope.find_key
verify_state_envelope-mint_state_envelope_example =
    verify_state_envelope-mint_state_envelope crypto state_keys state_keys "acme" "f.1" "nonce"
      crypto-IsStateCrypto refl

verify_state_envelope-IsVerified_example :
    IsVerified crypto state_keys
      (mint_state_envelope crypto state_keys "acme" "f.1" "nonce")
      (record { tenant_id = "acme"; flow_id = "f.1"; nonce = "nonce"; kid = "k1" })
unfolding openauth.StateEnvelope.find_key
verify_state_envelope-IsVerified_example =
    verify_state_envelope-IsVerified crypto state_keys
      (mint_state_envelope crypto state_keys "acme" "f.1" "nonce")
      (record { tenant_id = "acme"; flow_id = "f.1"; nonce = "nonce"; kid = "k1" })
      (verify_state_envelope-mint_state_envelope crypto state_keys state_keys "acme" "f.1" "nonce"
        crypto-IsStateCrypto refl)

abbrev par_request : ParRequest
par_request = record {
  client_id = "web";
  client_secret = some "s3cret";
  params = ("scope", "openid") ∷ ("client_id", "web") ∷ [];
}

push_authorization_request-IsPushed_example :
    IsPushed platform 1000 "xyz" none par_request acme
      (push_authorization_request platform 1000 "xyz" none par_request acme new_session_store).1
      (record { request_uri = "urn:ietf:params:oauth:request_uri:xyz"; expires_in = 60 })
unfolding push_authorization_request openauth.Par.par_check
    openauth.ClientAuth.verify_client_credentials openauth.Crypto.timing_safe_equal_str
    openauth.Tests.Platforms.encode openauth.ClientAuth.hash_client_secret openauth.Par.conflicts
    openauth.Par.param openauth.Par.push_params openauth.SessionStore.save_par
push_authorization_request-IsPushed_example =
    push_authorization_request-IsPushed platform 1000 "xyz" none par_request acme new_session_store
      (record { request_uri = "urn:ietf:params:oauth:request_uri:xyz"; expires_in = 60 })
      platform-IsUtf8 refl
