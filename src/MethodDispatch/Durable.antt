-- ===== src/MethodDispatch/Durable.antt =====
-- What a dispatch leaves in the stores: flows change only by the state that a challenge saves. About
-- packages/openauth/src/domain/method-dispatch.ts.
use openauth.Prelude.{
  ℕ, String, Option, none, some, ◌≡◌, refl, ◌∙◌, sym, ap, arith, eq_refl, Option-cases, inl, inr,
}
use mathlib.Core.Path.{subst}
use openauth.Types.Error.{Result, ok, or_fail}
use openauth.Types.Effect.{lift, pure, after_bind, bind-eq-ok}
use openauth.Types.Effect.Keeps.{Keeps, Keeps-bind, keeps_rules}
use openauth.Types.Json.{Json}
use openauth.Types.Flow.{FlowRecord}
use openauth.Types.Method.{
  MethodContext, MethodResult, Rendered, challenge, UnsolicitedBinding, success, denied, error,
  Handling, returns, puts, gets, deletes,
}
use openauth.SessionStore.{
  SessionStore, save_scratch, read_scratch, delete_scratch, update_flow_method_state, read_flow,
}
use openauth.World.{World, with_sessions}
use openauth.MethodDispatch.{
  DispatchInput, scratch_prefix, scratch_put, scratch_get, scratch_delete, run_handler, save_state,
  surfaced, handle, dispatch_method, no_handler, context_of,
}

module _ (now : ℕ) (prefix : String) where
  run_handler-flows :
      (h : Handling) (s : SessionStore) → (run_handler now prefix h s).1.flows ≡ s.flows
  unfolding run_handler scratch_put scratch_get scratch_delete save_scratch read_scratch
      delete_scratch
  run_handler-flows (returns r) s = refl
  run_handler-flows (puts key value ttl next) s =
      let a = scratch_put now prefix key value ttl s in
      run_handler-flows (next a.0) a.1 ∙ ground arith
  run_handler-flows (gets key next) s =
      let a = scratch_get now prefix key s in run_handler-flows (next a.0) a.1 ∙ ground arith
  run_handler-flows (deletes key next) s =
      let a = scratch_delete now prefix key s in run_handler-flows (next a.0) a.1

-- What a dispatch leaves alone.
pub record SameElsewhere (w w' : World) : Type 0 where
  pub tokens : w'.tokens ≡ w.tokens
  pub methods : w'.methods ≡ w.methods
  pub audit : w'.audit ≡ w.audit

module _ (now : ℕ) (input : DispatchInput) where
  handle-elsewhere :
      (handler : MethodContext → Handling) (w : World)
      → Keeps (SameElsewhere w) (handle now input handler)
  unfolding handle
  handle-elsewhere handler w = record {
    at = λ s h. record { tokens = h.tokens; methods = h.methods; audit = h.audit };
  }

  with_sessions-elsewhere :
      {A : Type 0} (m : SessionStore → Result A × SessionStore) (w : World)
      → Keeps (SameElsewhere w) (with_sessions m)
  with_sessions-elsewhere m w = record {
    at = λ s h. record { tokens = h.tokens; methods = h.methods; audit = h.audit };
  }

  save_state-elsewhere :
      (flow : Option FlowRecord) (state : Json) (w : World)
      → Keeps (SameElsewhere w) (save_state now input flow state)
  unfolding save_state
  save_state-elsewhere none state w = search keeps_rules depth 9
  save_state-elsewhere (some f) state w =
      with_sessions-elsewhere (update_flow_method_state now f.flow_id state) w

  surfaced-elsewhere :
      (result : MethodResult) (w : World) → Keeps (SameElsewhere w) (surfaced now input result)
  unfolding surfaced
  surfaced-elsewhere (challenge r (some state)) w =
      Keeps-bind _ _ (save_state-elsewhere input.flow state w) (λ a. search keeps_rules depth 9)
  surfaced-elsewhere (challenge r none) w = search keeps_rules depth 9
  surfaced-elsewhere (success s p b) w = search keeps_rules depth 9
  surfaced-elsewhere (denied r c) w = search keeps_rules depth 9
  surfaced-elsewhere (error e) w = search keeps_rules depth 9

  pub dispatch_method-elsewhere : (w : World) → SameElsewhere w (dispatch_method now input w).1
  unfolding dispatch_method
  dispatch_method-elsewhere w =
      let k : Keeps (SameElsewhere w) (dispatch_method now input) =
        Keeps-bind _ _ (search keeps_rules depth 9) λ handler.
          Keeps-bind _ _ (handle-elsewhere handler w) λ result. surfaced-elsewhere result w in
      k.at w (record { tokens = refl; methods = refl; audit = refl })

  pub handle-flows :
      (handler : MethodContext → Handling) (w : World)
      → (handle now input handler w).1.sessions.flows ≡ w.sessions.flows
  unfolding handle
  handle-flows handler w =
      run_handler-flows now (scratch_prefix input.tenant.id input.method.id)
        (handler (context_of now input)) w.sessions

  surfaced-result :
      (result r : MethodResult) (w : World) → (surfaced now input result w).0 ≡ ok r → result ≡ r
  unfolding surfaced
  surfaced-result (challenge v (some state)) r w h =
      let (a, saved, rest) =
        bind-eq-ok (save_state now input input.flow state) (λ _. pure (challenge v (some state))) w
          r h in
      ground arith
  surfaced-result (challenge v none) r w h = ground arith
  surfaced-result (success s p b) r w h = ground arith
  surfaced-result (denied d c) r w h = ground arith
  surfaced-result (error e) r w h = ground arith

  surfaced-success :
      (result : MethodResult) (subject : String) (properties : Json)
      (binding : Option UnsolicitedBinding) (w : World)
      → (surfaced now input result w).0 ≡ ok (success subject properties binding)
      → (surfaced now input result w).1 ≡ w
  unfolding surfaced
  surfaced-success result subject properties binding w h =
      let e = surfaced-result result (success subject properties binding) w h in
      subst (λ (x : MethodResult). (surfaced now input x w).1 ≡ w) (sym e) refl

  -- A dispatch that ends in success leaves the flows as they were.
  pub dispatch_method-success :
      (subject : String) (properties : Json) (binding : Option UnsolicitedBinding) (w : World)
      → (dispatch_method now input w).0 ≡ ok (success subject properties binding)
      → (dispatch_method now input w).1.sessions.flows ≡ w.sessions.flows
  unfolding dispatch_method
  dispatch_method-success subject properties binding w h =
      let r = success subject properties binding in
      let P = λ (w' : World). w'.sessions.flows ≡ w.sessions.flows in
      after_bind P (lift (or_fail (no_handler input) (input.method.routes input.route))) _ w r h
        λ handler has h1.
          after_bind P (handle now input handler) (surfaced now input) w r h1 λ result ran h2.
            ap (λ (v : World). v.sessions.flows)
              (surfaced-success result subject properties binding (handle now input handler w).1 h2)
            ∙ handle-flows handler w

-- The flow was held, and is held now with this state and no other change.
pub record IsSaved (now : ℕ) (flow_id : String) (state : Json) (s s' : SessionStore) : Type 0 where
  pub row : FlowRecord
  pub before : (read_flow now flow_id s).0 ≡ ok row
  pub after : (read_flow now flow_id s').0 ≡ ok (record row { method_state = state })

update-IsSaved :
    (now : ℕ) (id : String) (state : Json) (s : SessionStore)
    → (update_flow_method_state now id state s).0 ≡ ok tt
    → IsSaved now id state s (update_flow_method_state now id state s).1
unfolding update_flow_method_state read_flow
update-IsSaved now id state s h = elim (Option-cases (s.flows id)) [
  | inl e ↦ absurd (ground arith)
  | inr (stored, e) ↦ record {
    row = stored.record_of;
    before = ground (arith, eq_refl id);
    after = ground (arith, eq_refl id);
  }
]

read_flow-flows :
    (now : ℕ) (id : String) (s t : SessionStore)
    → s.flows ≡ t.flows
    → (read_flow now id s).0 ≡ (read_flow now id t).0
unfolding read_flow
read_flow-flows now id s t e = let row : s.flows id ≡ t.flows id = λ i. e i id in ground arith

module _ (now : ℕ) (input : DispatchInput) where
  save_state-IsSaved :
      (flow : Option FlowRecord) (f : FlowRecord) (state : Json) (w : World)
      → flow ≡ some f
      → (save_state now input flow state w).0 ≡ ok tt
      → IsSaved now f.flow_id state w.sessions (save_state now input flow state w).1.sessions
  unfolding save_state
  save_state-IsSaved none f state w e h = absurd (cc)
  save_state-IsSaved (some g) f state w e h =
      let same : g ≡ f = ground arith in
      subst
        (λ (x : FlowRecord).
          IsSaved now x.flow_id state w.sessions
            (update_flow_method_state now g.flow_id state w.sessions).1)
        same (update-IsSaved now g.flow_id state w.sessions h)

  surfaced-IsSaved :
      (result : MethodResult) (v : Rendered) (f : FlowRecord) (state : Json) (w : World)
      → input.flow ≡ some f
      → (surfaced now input result w).0 ≡ ok (challenge v (some state))
      → IsSaved now f.flow_id state w.sessions (surfaced now input result w).1.sessions
  unfolding surfaced
  surfaced-IsSaved result v f state w e h =
      let same = surfaced-result now input result (challenge v (some state)) w h in
      let r = challenge v (some state) in
      subst
        (λ (x : MethodResult).
          IsSaved now f.flow_id state w.sessions (surfaced now input x w).1.sessions)
        (sym same)
        (after_bind (λ (w' : World). IsSaved now f.flow_id state w.sessions w'.sessions)
          (save_state now input input.flow state) (λ _. pure r) w r (rw same at h)
          λ a saved rest. save_state-IsSaved input.flow f state w e saved)

  -- When a dispatch over a flow returns a challenge that asks for a state to be saved, the flow
  -- was live, and is now held with that state and no other change.
  pub dispatch_method-IsSaved :
      (v : Rendered) (f : FlowRecord) (state : Json) (w : World)
      → input.flow ≡ some f
      → (dispatch_method now input w).0 ≡ ok (challenge v (some state))
      → IsSaved now f.flow_id state w.sessions (dispatch_method now input w).1.sessions
  unfolding dispatch_method
  dispatch_method-IsSaved v f state w e h =
      let r = challenge v (some state) in
      let P = λ (w' : World). IsSaved now f.flow_id state w.sessions w'.sessions in
      after_bind P (lift (or_fail (no_handler input) (input.method.routes input.route))) _ w r h
        λ handler has h1.
          after_bind P (handle now input handler) (surfaced now input) w r h1 λ result ran h2.
            let saved = surfaced-IsSaved result v f state (handle now input handler w).1 e h2 in
            record {
              row = saved.row;
              before =
                  read_flow-flows now f.flow_id w.sessions (handle now input handler w).1.sessions
                    (sym (handle-flows now input handler w))
                  ∙ saved.before;
              after = saved.after;
            }
