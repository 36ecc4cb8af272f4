-- ===== src/Callback/Once.antt =====
-- A state is good for one callback. About packages/openauth/src/domain/callback.ts.
use openauth.Prelude.{
  ℕ, String, Bool, true, false, Option, none, some, ◌≡◌, refl, ap, ◌∙◌, sym, arith, eq_iff, eq_refl,
}
use mathlib.Core.Path.{subst}
use openauth.Types.Error.{AuthError, Result, ok, err, description}
use openauth.Types.Effect.{bind-err, ◌>>=◌, ◌>>◌}
use openauth.Types.Effect.Keeps.{Keeps, Keeps-bind, keeps_rules, Keeps-fail, Keeps-pure}
use openauth.Types.Json.{Json}
use openauth.Types.Tenant.{TenantConfig}
use openauth.Types.Audit.{AuditEvent}
use openauth.Types.Token.{CodePayload}
use openauth.Types.Flow.{FlowRecord}
use openauth.Types.Method.{
  MethodContext, MethodResult, challenge, success, denied, error, Handling, AuthMethod, Factory,
}
use openauth.StateEnvelope.{StateEnvelope, verify_state_envelope, extract_callback_state}
use openauth.SessionStore.{SessionStore, consume_flow, update_flow_method_state, consumed_entry}
use openauth.TokenStore.{TokenStore}
use openauth.World.{Env, World, with_sessions, with_tokens, safe_audit}
use openauth.Token.Exchange.{save_encrypted_code}
use openauth.MethodCache.{resolve, remember}
use openauth.MethodCache.Stores.{Kept-resolve}
use openauth.MethodDispatch.{DispatchInput, dispatch_method, surfaced, save_state, handle}
use openauth.MethodDispatch.Durable.{handle-flows}
use openauth.Flow.{FlowDeps, issue_code, audit_failure}
use openauth.Callback.{
  CallbackOutput, HandleCallbackInput, state_error, audited_require, translate, consistency_check,
  resume_flow, flow_or_audited, with_envelope, by_envelope, by_state, handle_callback,
}

-- The flow is not in the store.
pub record IsGone (id : String) (w : World) : Type 0 where
  pub gone : w.sessions.flows id ≡ none

module _ (id : String) where
  Gone-safe_audit : (e : AuditEvent) → Keeps (IsGone id) (safe_audit e)
  Gone-safe_audit e = record { at = λ s h. record { gone = h.gone } }

  Gone-with_tokens :
      {A : Type 0} (m : TokenStore → Result A × TokenStore) → Keeps (IsGone id) (with_tokens m)
  Gone-with_tokens m = record { at = λ s h. record { gone = h.gone } }

  Gone-audited_require :
      (b : Bool) (event : AuditEvent) (e : AuthError)
      → Keeps (IsGone id) (audited_require b event e)
  unfolding audited_require
  Gone-audited_require true event e = Keeps-pure tt
  Gone-audited_require false event e = Keeps-bind _ _ (Gone-safe_audit event) λ _. Keeps-fail e

  update-gone :
      (now : ℕ) (other : String) (state : Json) (s : SessionStore)
      → s.flows id ≡ none
      → (update_flow_method_state now other state s).1.flows id ≡ none
  unfolding update_flow_method_state
  update-gone now other state s h = ground (arith, eq_iff other id)

  Gone-save_state :
      (now : ℕ) (input : DispatchInput) (flow : Option FlowRecord) (state : Json)
      → Keeps (IsGone id) (save_state now input flow state)
  unfolding save_state
  Gone-save_state now input none state = Keeps-fail _
  Gone-save_state now input (some f) state = record {
    at = λ w h. record { gone = update-gone now f.flow_id state w.sessions h.gone };
  }

  Gone-handle :
      (now : ℕ) (input : DispatchInput) (handler : MethodContext → Handling)
      → Keeps (IsGone id) (handle now input handler)
  Gone-handle now input handler = record {
    at = λ w h. record {
      gone = ap (λ (m : String → Option _). m id) (handle-flows now input handler w) ∙ h.gone;
    };
  }

  Gone-surfaced :
      (now : ℕ) (input : DispatchInput) (result : MethodResult)
      → Keeps (IsGone id) (surfaced now input result)
  unfolding surfaced
  Gone-surfaced now input (challenge r (some state)) =
      Keeps-bind _ _ (Gone-save_state now input input.flow state) λ _. Keeps-pure _
  Gone-surfaced now input (challenge r none) = Keeps-pure _
  Gone-surfaced now input (success s p b) = Keeps-pure _
  Gone-surfaced now input (denied r c) = Keeps-pure _
  Gone-surfaced now input (error e) = Keeps-pure _

  Gone-dispatch_method :
      (now : ℕ) (input : DispatchInput) → Keeps (IsGone id) (dispatch_method now input)
  unfolding dispatch_method
  Gone-dispatch_method now input = search (keeps_rules, Gone-handle, Gone-surfaced) depth 9

  Gone-save_encrypted_code :
      (env : Env) (code : String) (payload : CodePayload) (ttl : ℕ)
      → Keeps (IsGone id) (save_encrypted_code env code payload ttl)
  unfolding save_encrypted_code
  Gone-save_encrypted_code env code payload ttl = search (keeps_rules, Gone-with_tokens) depth 9

  Gone-issue_code :
      (env : Env) (payload : CodePayload) (flow_id : String)
      → Keeps (IsGone id) (issue_code env payload flow_id)
  unfolding issue_code
  Gone-issue_code env payload flow_id =
      search (keeps_rules, Gone-save_encrypted_code, Gone-safe_audit) depth 9

  Gone-remember :
      (env : Env) (factories : String → Option Factory) (key : String) (r : Result AuthMethod)
      (w : World)
      → IsGone id w
      → IsGone id (remember env factories key r w).1
  Gone-remember env factories key (ok m) w h = record { gone = h.gone }
  Gone-remember env factories key (err e) w h = record { gone = h.gone }

  Gone-resolve :
      (env : Env) (factories : String → Option Factory) (tenant : TenantConfig) (method_id : String)
      → Keeps (IsGone id) (resolve env factories tenant method_id)
  Gone-resolve env factories tenant method_id =
      Kept-resolve env factories (IsGone id) Gone-safe_audit (Gone-remember env factories) tenant
        method_id

  Gone-audit_failure :
      (env : Env) (flow : FlowRecord) (reason : String)
      → Keeps (IsGone id) (audit_failure env flow reason)
  unfolding audit_failure
  Gone-audit_failure env flow reason = Gone-safe_audit _

  module _ {Bytes : Type 0} (env : Env) (deps : FlowDeps Bytes) (input : HandleCallbackInput) where
    Gone-translate :
        (result : MethodResult) (flow : FlowRecord)
        → Keeps (IsGone id) (translate env deps input result flow)
    unfolding translate
    Gone-translate (success s p b) flow = search (keeps_rules, Gone-issue_code) depth 9
    Gone-translate (challenge r saved) flow = Keeps-pure _
    Gone-translate (denied reason cookies) flow = search (keeps_rules, Gone-audit_failure) depth 9
    Gone-translate (error e) flow = search (keeps_rules, Gone-audit_failure) depth 9

    Gone-resume_flow : (flow : FlowRecord) → Keeps (IsGone id) (resume_flow env deps input flow)
    unfolding resume_flow
    Gone-resume_flow flow =
        search (keeps_rules, Gone-resolve, Gone-dispatch_method, Gone-translate) depth 12

    Gone-consistency_check :
        (envelope : StateEnvelope) (flow : FlowRecord)
        → Keeps (IsGone id) (consistency_check env deps input envelope flow)
    unfolding consistency_check
    Gone-consistency_check envelope flow = search (keeps_rules, Gone-audited_require) depth 9

    Gone-flow_or_audited :
        (envelope : StateEnvelope) (r : Result FlowRecord)
        → Keeps (IsGone id) (flow_or_audited env deps input envelope r)
    unfolding flow_or_audited
    Gone-flow_or_audited envelope (ok flow) = Keeps-pure flow
    Gone-flow_or_audited envelope (err e) = search (keeps_rules, Gone-safe_audit) depth 9

consume_flow-gone :
    (now : ℕ) (id : String) (s : SessionStore) → (consume_flow now id s).1.flows id ≡ none
unfolding consume_flow
consume_flow-gone now id s = ground (arith, eq_refl id)

consume_flow-consumed :
    (now : ℕ) (id : String) (s : SessionStore)
    → s.flows id ≡ none
    → (consume_flow now id s).0 ≡ err (consumed_entry "flow" id)
unfolding consume_flow
consume_flow-consumed now id s h = ground arith

-- The error for a flow that is not there, in the words of the request.
abbrev pub replayed : String → AuthError
replayed flow_id = state_error (description (consumed_entry "flow" flow_id))

module _ {Bytes : Type 0} (env : Env) (deps : FlowDeps Bytes) (input : HandleCallbackInput) where
  with_envelope-IsGone :
      (envelope : StateEnvelope) (w : World)
      → IsGone envelope.flow_id (with_envelope env deps input envelope w).1
  unfolding with_envelope
  with_envelope-IsGone envelope w =
      let id = envelope.flow_id in
      let w1 : World = (with_sessions (consume_flow env.now id) w).1 in
      let rest : Keeps (IsGone id) (
          flow_or_audited env deps input envelope (consume_flow env.now id w.sessions).0 >>= λ flow.
          consistency_check env deps input envelope flow >> resume_flow env deps input flow) =
        search (keeps_rules, Gone-flow_or_audited, Gone-consistency_check, Gone-resume_flow) depth
          9 in
      rest.at w1 (record { gone = consume_flow-gone env.now id w.sessions })

  flow_or_audited-err :
      (envelope : StateEnvelope) (e : AuthError) (r : Result FlowRecord) (w : World)
      → r ≡ err e
      → (flow_or_audited env deps input envelope r w).0 ≡ err (state_error (description e))
  unfolding flow_or_audited
  flow_or_audited-err envelope e (ok flow) w h = absurd (cc)
  flow_or_audited-err envelope e (err f) w h = ground arith

  with_envelope-replayed :
      (envelope : StateEnvelope) (w : World)
      → IsGone envelope.flow_id w
      → (with_envelope env deps input envelope w).0 ≡ err (replayed envelope.flow_id)
  unfolding with_envelope
  with_envelope-replayed envelope w g =
      let id = envelope.flow_id in
      let w1 : World = (with_sessions (consume_flow env.now id) w).1 in
      bind-err (flow_or_audited env deps input envelope (consume_flow env.now id w.sessions).0)
        (λ flow. consistency_check env deps input envelope flow >> resume_flow env deps input flow)
        w1 (replayed id)
        (flow_or_audited-err envelope (consumed_entry "flow" id)
          (consume_flow env.now id w.sessions).0 w1
          (consume_flow-consumed env.now id w.sessions g.gone))

  handle_callback-with_envelope :
      (state : String) (envelope : StateEnvelope) (w : World)
      → extract_callback_state input.raw_request ≡ some state
      → verify_state_envelope deps.crypto deps.state_keys state ≡ ok envelope
      → handle_callback env deps input w ≡ with_envelope env deps input envelope w
  unfolding handle_callback by_state by_envelope
  handle_callback-with_envelope state envelope w e v = rw (handle_callback, e, v) refl

-- After any callback with a state that verifies, whatever it answered, every later callback with
-- that state is refused with the words for an unknown or consumed flow.
pub handle_callback-replayed :
    {Bytes : Type 0} (env later : Env) (deps : FlowDeps Bytes) (input again : HandleCallbackInput)
    (state : String) (envelope : StateEnvelope) (w : World)
    → extract_callback_state input.raw_request ≡ some state
    → extract_callback_state again.raw_request ≡ some state
    → verify_state_envelope deps.crypto deps.state_keys state ≡ ok envelope
    → (handle_callback later deps again (handle_callback env deps input w).1).0
      ≡ err (replayed envelope.flow_id)
handle_callback-replayed env later deps input again state envelope w e f v =
    let first = handle_callback-with_envelope env deps input state envelope w e v in
    let w1 : World = (handle_callback env deps input w).1 in
    let gone : IsGone envelope.flow_id w1 =
      subst (λ (x : Result CallbackOutput × World). IsGone envelope.flow_id x.1) (sym first)
        (with_envelope-IsGone env deps input envelope w) in
    ap (λ (x : Result CallbackOutput × World). x.0)
      (handle_callback-with_envelope later deps again state envelope w1 f v)
    ∙ with_envelope-replayed later deps again envelope w1 gone
