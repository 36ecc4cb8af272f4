-- ===== src/Callback/Resumed.antt =====
-- A callback that leads to a flow: what it has in common with the flow, and the code that it is
-- given. About packages/openauth/src/domain/callback.ts.
use openauth.Prelude.{ℕ, ◌<◌, String, some, ◌≡◌, arith, eq_iff, Option-cases, inl, inr}
use mathlib.Core.Path.{subst}
use openauth.Types.Error.{Result, ok, err}
use openauth.Types.Effect.{◌>>◌, lift, pure, after_bind}
use openauth.Types.Json.{Json}
use openauth.Types.Flow.{FlowRecord}
use openauth.Types.Token.{CodePayload}
use openauth.Types.Method.{TenantContext, MethodResult, challenge, success, denied, error}
use openauth.StateEnvelope.{StateEnvelope}
use openauth.Mount.{normalize_path}
use openauth.SessionStore.{SessionStore, consume_flow}
use openauth.World.{Env, World, with_sessions}
use openauth.MethodCache.{resolve}
use openauth.MethodDispatch.{dispatch_method}
use openauth.Flow.{FlowDeps, IssuedCode, snapshot, issue_code, audit_failure}
use openauth.Flow.Issued.{IsOfFlow, snapshot-IsOfFlow, IsIssued, issue_code-IsIssued}
use openauth.Callback.{
  code_issued, HandleCallbackInput, audited_require, translate, consistency_check, custom_of,
  callback_dispatch, resume_flow, flow_or_audited, with_envelope,
}

pub record IsConsistent (input : HandleCallbackInput) (envelope : StateEnvelope) (flow : FlowRecord)
    : Type 0 where
  pub tenant : envelope.tenant_id ≡ flow.tenant_id
  pub nonce : envelope.nonce ≡ flow.nonce
  pub host : input.raw_request.host ≡ flow.callback_host
  pub path : normalize_path input.raw_request.pathname ≡ normalize_path flow.callback_path

-- The code holds the flow's snapshot.
pub record IsSnapshotOf (env : Env) (flow : FlowRecord) (w' : World) (r : IssuedCode) : Type 0 where
  pub subject : String
  pub properties : Json
  pub before : World
  pub payload : CodePayload
  pub of_flow : IsOfFlow env flow subject properties payload
  pub issued : IsIssued env payload before w' r

-- Why a code was issued for an envelope.
pub record IsResumed (env : Env) (input : HandleCallbackInput) (envelope : StateEnvelope)
    (w w' : World) (r : IssuedCode) : Type 0 where
  pub flow : FlowRecord
  pub expiry : ℕ
  pub held :
      w.sessions.flows envelope.flow_id ≡ some (record { record_of = flow; expires_at = expiry })
  pub live : env.now < expiry
  pub consistent : IsConsistent input envelope flow
  pub of_flow : IsSnapshotOf env flow w' r

consume_flow_sound :
    (now : ℕ) (id : String) (s : SessionStore) (flow : FlowRecord)
    → (consume_flow now id s).0 ≡ ok flow
    → (expiry : ℕ) × (s.flows id ≡ some (record { record_of = flow; expires_at = expiry }))
      × (now < expiry)
unfolding consume_flow
consume_flow_sound now id s flow h = elim (Option-cases (s.flows id)) [
  | inl e ↦ absurd (ground arith)
  | inr (stored, e) ↦ (stored.expires_at, ground arith, ground arith)
]

module _ {Bytes : Type 0} (env : Env) (deps : FlowDeps Bytes) (input : HandleCallbackInput) where
  consistency_check_sound :
      (envelope : StateEnvelope) (flow : FlowRecord) (w : World)
      → (consistency_check env deps input envelope flow w).0 ≡ ok tt
      → IsConsistent input envelope flow
  unfolding consistency_check audited_require
  consistency_check_sound envelope flow w h = record {
    tenant = ground (arith, eq_iff envelope.tenant_id flow.tenant_id);
    nonce = ground (arith, eq_iff envelope.nonce flow.nonce);
    host = ground (arith, eq_iff input.raw_request.host flow.callback_host);
    path = ground (
      arith,
      eq_iff (normalize_path input.raw_request.pathname) (normalize_path flow.callback_path),
    );
  }

  translate-IsSnapshotOf :
      (result : MethodResult) (flow : FlowRecord) (w : World) (r : IssuedCode)
      → (translate env deps input result flow w).0 ≡ ok (code_issued r)
      → IsSnapshotOf env flow (translate env deps input result flow w).1 r
  unfolding translate audit_failure
  translate-IsSnapshotOf (success s p b) flow w r h =
      after_bind (λ w'. IsSnapshotOf env flow w' r)
        (issue_code env (snapshot env flow s p) flow.flow_id) (λ x. pure (code_issued x)) w
        (code_issued r) h
        λ q made h1. record {
          subject = s;
          properties = p;
          before = w;
          payload = snapshot env flow s p;
          of_flow = snapshot-IsOfFlow env flow s p;
          issued =
              subst
                (λ (x : IssuedCode).
                  IsIssued env (snapshot env flow s p) w
                    (issue_code env (snapshot env flow s p) flow.flow_id w).1 x)
                (ground arith)
                (issue_code-IsIssued env (snapshot env flow s p) flow.flow_id w q made);
        }
  translate-IsSnapshotOf (challenge v s) flow w r h = absurd (cc)
  translate-IsSnapshotOf (denied reason cookies) flow w r h = absurd (cc)
  translate-IsSnapshotOf (error e) flow w r h = absurd (cc)

  resume_flow-IsSnapshotOf :
      (flow : FlowRecord) (w : World) (r : IssuedCode)
      → (resume_flow env deps input flow w).0 ≡ ok (code_issued r)
      → IsSnapshotOf env flow (resume_flow env deps input flow w).1 r
  unfolding resume_flow
  resume_flow-IsSnapshotOf flow w r h =
      let P = λ (w' : World). IsSnapshotOf env flow w' r in
      let out = code_issued r in
      let finish = λ (x : MethodResult). translate env deps input x flow in
      after_bind P (lift (env.config flow.tenant_id)) _ w out h λ config configured h1.
        after_bind P (lift (custom_of env deps input deps.custom_context)) _ w out h1
          λ custom said h2.
            after_bind P (resolve env deps.factories config flow.method_id) _ w out h2
              λ method resolved h3.
                let tenant : TenantContext = record {
                  id = flow.tenant_id;
                  config = config;
                  raw = input.raw_request;
                  custom = custom;
                } in
                let w1 : World = (resolve env deps.factories config flow.method_id w).1 in
                let dispatch =
                  dispatch_method env.now (callback_dispatch env deps input tenant method flow) in
                after_bind P dispatch finish w1 out h3
                  λ result ran h4. translate-IsSnapshotOf result flow (dispatch w1).1 r h4

  flow_or_audited-eq-ok :
      (envelope : StateEnvelope) (x : Result FlowRecord) (flow : FlowRecord) (w : World)
      → (flow_or_audited env deps input envelope x w).0 ≡ ok flow
      → x ≡ ok flow
  unfolding flow_or_audited
  flow_or_audited-eq-ok envelope (ok f) flow w h = ground arith
  flow_or_audited-eq-ok envelope (err e) flow w h = absurd (cc)

  pub with_envelope-IsResumed :
      (envelope : StateEnvelope) (w : World) (r : IssuedCode)
      → (with_envelope env deps input envelope w).0 ≡ ok (code_issued r)
      → IsResumed env input envelope w (with_envelope env deps input envelope w).1 r
  unfolding with_envelope
  with_envelope-IsResumed envelope w r h =
      let P = λ (w' : World). IsResumed env input envelope w w' r in
      let out = code_issued r in
      let x = (consume_flow env.now envelope.flow_id w.sessions).0 in
      let w1 : World = (with_sessions (consume_flow env.now envelope.flow_id) w).1 in
      after_bind P (flow_or_audited env deps input envelope x)
        (λ flow. consistency_check env deps input envelope flow >> resume_flow env deps input flow)
        w1 out h
        λ flow taken h1.
          let w2 : World = (flow_or_audited env deps input envelope x w1).1 in
          let row =
            consume_flow_sound env.now envelope.flow_id w.sessions flow
              (flow_or_audited-eq-ok envelope x flow w1 taken) in
          after_bind P (consistency_check env deps input envelope flow)
            (λ _. resume_flow env deps input flow) w2 out h1
            λ done passed h2. record {
              flow = flow;
              expiry = row.0;
              held = row.1;
              live = row.2;
              consistent = consistency_check_sound envelope flow w2 passed;
              of_flow =
                  resume_flow-IsSnapshotOf flow
                    (consistency_check env deps input envelope flow w2).1 r h2;
            }
