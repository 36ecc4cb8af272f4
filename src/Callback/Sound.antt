-- ===== src/Callback/Sound.antt =====
-- Every code that a callback is given comes from a flow, or from an opted-in method's binding. About
-- packages/openauth/src/domain/callback.ts.
use openauth.Prelude.{String, some, ◌≡◌, ◌≢◌}
use openauth.Types.Error.{ok}
use openauth.Types.Effect.{Exec}
use openauth.StateEnvelope.{StateEnvelope, verify_state_envelope, extract_callback_state}
use openauth.World.{Env, World}
use openauth.Flow.{FlowDeps, IssuedCode}
use openauth.Callback.{CallbackOutput, code_issued, HandleCallbackInput}
use openauth.Callback.Resumed.{IsResumed}

-- The request carries a state that verifies, and its flow is resumed.
pub record IsFromFlow {Bytes : Type 0} (env : Env) (deps : FlowDeps Bytes)
    (input : HandleCallbackInput) (w w' : World) (r : IssuedCode) : Type 0 where
  pub state : String
  pub envelope : StateEnvelope
  pub carried : extract_callback_state input.raw_request ≡ some state
  pub verified : verify_state_envelope deps.crypto deps.state_keys state ≡ ok envelope
  pub resumed : IsResumed env input envelope w w' r

module _ {Bytes : Type 0} (env : Env) (deps : FlowDeps Bytes) (input : HandleCallbackInput) where
  -- The part for `null` issues no code.
  abbrev NoCode : Exec World CallbackOutput → Type 0
  NoCode other = (v : World) (r : IssuedCode) → (other v).0 ≢ ok (code_issued r)
