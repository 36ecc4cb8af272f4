-- ===== src/MethodRoute/Laws.antt =====
-- A route of a method that ends in a code. About packages/openauth/src/domain/method-route.ts.
use mathlib.Core.Path.{subst}
use openauth.Prelude.{
  ℕ, String, false, Option, Option-cases, inl, inr, none, some, ◌≡◌, refl, sym, ap, ◌∙◌, arith,
  eq_iff, eq_refl, leb,
}
use openauth.Types.Error.{ok}
use openauth.Types.Effect.{◌>>◌, pure, after_bind}
use openauth.Types.Json.{Json}
use openauth.Types.Flow.{FlowRecord}
use openauth.Types.Method.{
  Factory, MethodResult, UnsolicitedBinding, challenge, success, denied, error,
}
use openauth.SessionStore.{Stored, SessionStore, read_flow, consume_flow}
use openauth.World.{Env, World, with_sessions}
use openauth.MethodCache.{resolve}
use openauth.MethodCache.Stores.{resolve-sessions}
use openauth.MethodDispatch.{dispatch_method}
use openauth.MethodDispatch.Durable.{dispatch_method-success}
use openauth.Flow.{IssuedCode, snapshot, issue_code, audit_failure}
use openauth.Flow.Issued.{IsOfFlow, snapshot-IsOfFlow, IsIssued, issue_code-IsIssued}
use openauth.Callback.{audited_require}
use openauth.MethodRoute.{
  code_for, HandleMethodRouteInput, translate, route_owner_check, route_dispatch, route_flow,
  handle_method_route,
}

-- Each flow is saved under its own id.
abbrev pub IsKeyed : SessionStore → Type 0
IsKeyed s =
    (k : String) (row : Stored FlowRecord) → s.flows k ≡ some row → row.record_of.flow_id ≡ k

-- Why a route was given a code: the user agent's flow is live and belongs to this tenant and method,
-- and the code holds its snapshot.
pub record IsRouted (env : Env) (input : HandleMethodRouteInput) (w w' : World) (r : IssuedCode)
    : Type 0 where
  pub flow : FlowRecord
  pub live : (read_flow env.now input.flow_id w.sessions).0 ≡ ok flow
  pub tenant : flow.tenant_id ≡ input.tenant.id
  pub method : flow.method_id ≡ input.method_id
  pub subject : String
  pub properties : Json
  pub before : World
  pub of_flow : IsOfFlow env flow subject properties (snapshot env flow subject properties)
  pub issued : IsIssued env (snapshot env flow subject properties) before w' r
  pub used_up : w'.sessions.flows input.flow_id ≡ none

-- The row that a read answers from.
abbrev Live : ℕ → String → FlowRecord → SessionStore → Type 0
Live now id flow s =
    (row : Stored FlowRecord) × (s.flows id ≡ some row)
    × (row.record_of ≡ flow)
    × (leb row.expires_at now ≡ false)

read_flow-Live :
    (now : ℕ) (id : String) (flow : FlowRecord) (s : SessionStore)
    → (read_flow now id s).0 ≡ ok flow
    → Live now id flow s × ((read_flow now id s).1.flows ≡ s.flows)
unfolding read_flow
read_flow-Live now id flow s h = elim (Option-cases (s.flows id)) [
  | inl e ↦ absurd (ground arith)
  | inr (row, e) ↦ ((row, e, ground arith, ground arith), ground arith)
]

consume_flow-Live :
    (now : ℕ) (id : String) (flow f : FlowRecord) (s : SessionStore)
    → Live now id flow s
    → (consume_flow now id s).0 ≡ ok f
    → (f ≡ flow) × ((consume_flow now id s).1.flows id ≡ none)
unfolding consume_flow
consume_flow-Live now id flow f s (row, e, same, live) h =
    (ground (arith, eq_refl id), ground (arith, eq_refl id))

module _ (env : Env) (factories : String → Option Factory) (input : HandleMethodRouteInput) where
  -- Of the flow, from here on.
  record IsEnded (flow : FlowRecord) (w' : World) (r : IssuedCode) : Type 0 where
    subject : String
    properties : Json
    before : World
    issued : IsIssued env (snapshot env flow subject properties) before w' r
    used_up : w'.sessions.flows flow.flow_id ≡ none

  translate-IsEnded :
      (result : MethodResult) (flow : FlowRecord) (w : World) (r : IssuedCode)
      → ((s : String) (p : Json) (b : Option UnsolicitedBinding)
          → result ≡ success s p b
          → Live env.now flow.flow_id flow w.sessions)
      → (translate env factories input result flow w).0 ≡ ok (code_for r)
      → IsEnded flow (translate env factories input result flow w).1 r
  unfolding translate audit_failure
  translate-IsEnded (success s p b) flow w r live h =
      let P = λ (w' : World). IsEnded flow w' r in
      after_bind P (with_sessions (consume_flow env.now flow.flow_id)) _ w (code_for r) h
        λ f taken h1.
          let w1 : World = (with_sessions (consume_flow env.now flow.flow_id) w).1 in
          let (same, gone) =
            consume_flow-Live env.now flow.flow_id flow f w.sessions (live s p b refl) taken in
          let payload = snapshot env f s p in
          after_bind P (issue_code env payload f.flow_id) (λ x. pure (code_for x)) w1 (code_for r)
            h1
            λ q made h2.
              let issued = issue_code-IsIssued env payload f.flow_id w1 q made in
              let w2 : World = (issue_code env payload f.flow_id w1).1 in
              record {
                subject = s;
                properties = p;
                before = w1;
                issued =
                    subst (λ (x : IssuedCode). IsIssued env (snapshot env flow s p) w1 w2 x)
                      (ground arith)
                      (subst (λ (x : FlowRecord). IsIssued env (snapshot env x s p) w1 w2 q) same
                        issued);
                used_up = ap (λ (x : SessionStore). x.flows flow.flow_id) issued.sessions ∙ gone;
              }
  translate-IsEnded (challenge v s) flow w r live h = absurd (cc)
  translate-IsEnded (denied reason cookies) flow w r live h = absurd (cc)
  translate-IsEnded (error e) flow w r live h = absurd (cc)

  route_flow-IsEnded :
      (flow : FlowRecord) (w : World) (r : IssuedCode)
      → Live env.now flow.flow_id flow w.sessions
      → (route_flow env factories input flow w).0 ≡ ok (code_for r)
      → IsEnded flow (route_flow env factories input flow w).1 r
  unfolding route_flow
  route_flow-IsEnded flow w r (row, e, same, live) h =
      let P = λ (w' : World). IsEnded flow w' r in
      let out = code_for r in
      after_bind P (resolve env factories input.tenant.config input.method_id) _ w out h
        λ method resolved h1.
          let w1 : World = (resolve env factories input.tenant.config input.method_id w).1 in
          let kept : w1.sessions ≡ w.sessions =
            resolve-sessions env factories input.tenant.config input.method_id w in
          let dispatch = dispatch_method env.now (route_dispatch env factories input method flow) in
          after_bind P dispatch (λ x. translate env factories input x flow) w1 out h1
            λ result ran h2.
              translate-IsEnded result flow (dispatch w1).1 r
                (λ s p b k.
                  let flows =
                    dispatch_method-success env.now (route_dispatch env factories input method flow)
                      s p b w1 (ran ∙ ap ok k)
                    ∙ ap (λ (x : SessionStore). x.flows) kept in
                  (row, (λ i. flows i flow.flow_id) ∙ e, same, live))
                h2

  owner_check_sound :
      (flow : FlowRecord) (w : World)
      → (route_owner_check env factories input flow w).0 ≡ ok tt
      → (flow.tenant_id ≡ input.tenant.id)
        × (flow.method_id ≡ input.method_id)
        × ((route_owner_check env factories input flow w).1.sessions ≡ w.sessions)
  unfolding route_owner_check audited_require
  owner_check_sound flow w h = (
    ground (arith, eq_iff flow.tenant_id input.tenant.id),
    ground (arith, eq_iff flow.method_id input.method_id),
    ground (arith, eq_iff flow.tenant_id input.tenant.id),
  )

  -- Over a store with each flow under its own id, when handleMethodRoute issues a code, the flow
  -- of the request was live and belongs to its tenant and method, the code holds that flow's
  -- snapshot, and the flow is used up.
  pub handle_method_route-IsRouted :
      (w : World) (r : IssuedCode)
      → IsKeyed w.sessions
      → (handle_method_route env factories input w).0 ≡ ok (code_for r)
      → IsRouted env input w (handle_method_route env factories input w).1 r
  unfolding handle_method_route
  handle_method_route-IsRouted w r keyed h =
      let P = λ (w' : World). IsRouted env input w w' r in
      let out = code_for r in
      after_bind P (with_sessions (read_flow env.now input.flow_id))
        (λ flow. route_owner_check env factories input flow >> route_flow env factories input flow)
        w out h
        λ flow read h1.
          let w1 : World = (with_sessions (read_flow env.now input.flow_id) w).1 in
          let ((row, e, same, live), flows) =
            read_flow-Live env.now input.flow_id flow w.sessions read in
          let own : flow.flow_id ≡ input.flow_id =
            ap (λ (f : FlowRecord). f.flow_id) (sym same) ∙ keyed input.flow_id row e in
          after_bind P (route_owner_check env factories input flow)
            (λ _. route_flow env factories input flow) w1 out h1
            λ done passed h2.
              let w2 : World = (route_owner_check env factories input flow w1).1 in
              let (tenant, method, kept) = owner_check_sound flow w1 passed in
              let there =
                ap (λ i. w2.sessions.flows i) own
                ∙ ap (λ (x : SessionStore). x.flows input.flow_id) kept
                ∙ (λ i. flows i input.flow_id)
                ∙ e in
              let ended = route_flow-IsEnded flow w2 r (row, there, same, live) h2 in
              record {
                flow = flow;
                live = read;
                tenant = tenant;
                method = method;
                subject = ended.subject;
                properties = ended.properties;
                before = ended.before;
                of_flow = snapshot-IsOfFlow env flow ended.subject ended.properties;
                issued = ended.issued;
                used_up =
                    ap (λ i. (route_flow env factories input flow w2).1.sessions.flows i) (sym own)
                    ∙ ended.used_up;
              }
