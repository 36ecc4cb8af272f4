-- ===== src/Callback/Unsolicited.antt =====
-- An unsolicited callback that is given a code. About packages/openauth/src/domain/callback.ts.
use mathlib.Core.Path.{subst}
use openauth.Prelude.{
  ◌+◌, ◌/◌, String, Bool, true, false, Bool-cases, inl, inr, ◌==◌, ◌∙◌, Option, none, some, ◌≡◌,
  refl, arith, eq_iff, includes, segments,
}
use openauth.Types.Error.{Result, ok, err, or_fail, or_fail-eq-ok}
use openauth.Types.Effect.{◌>>=◌, lift, pure, attempt, require, after_bind}
use openauth.Types.Json.{Json}
use openauth.Types.Tenant.{ClientConfig, find_client}
use openauth.Types.Method.{
  TenantContext, MethodResult, UnsolicitedBinding, challenge, success, denied, error, AuthMethod,
}
use openauth.Mount.{callback_target}
use openauth.World.{Env, World}
use openauth.MethodCache.{resolve}
use openauth.MethodDispatch.{dispatch_method}
use openauth.Flow.{FlowDeps, IssuedCode, issue_code, rejected_promise}
use openauth.Flow.Issued.{IsIssued, issue_code-IsIssued}
use openauth.Callback.{
  code_issued, HandleCallbackInput, binding_unknown, binding_unregistered, unsolicited_payload,
  issue_unsolicited, translate_unsolicited, unsolicited_dispatch, unsolicited, answered_if,
  if_opted_in, callback_method_id, try_for, try_idp_initiated,
}

-- The binding is one of the tenant's registered clients, and the code is for it.
pub record IsBound {Bytes : Type 0} (env : Env) (deps : FlowDeps Bytes)
    (input : HandleCallbackInput) (tenant : TenantContext) (method : AuthMethod)
    (method_id : String) (w' : World) (r : IssuedCode) : Type 0 where
  pub client : ClientConfig
  pub binding : UnsolicitedBinding
  pub subject : String
  pub properties : Json
  pub before : World
  pub registered : find_client tenant.config binding.client_id ≡ some client
  pub redirect : includes client.redirect_uris binding.redirect_uri ≡ true
  -- the code is for the client and the redirect URI of the binding
  pub issued :
      IsIssued env
        (record {
          tenant_id = tenant.id;
          client_id = binding.client_id;
          app_redirect_uri = binding.redirect_uri;
          app_state = none;
          scopes = binding.scopes;
          audience = none;
          client_pkce = none;
          method_id = method_id;
          method_kind = method.kind;
          context = some tenant.custom;
          provider_subject = subject;
          properties = properties;
          app_nonce = none;
          auth_time = env.now / 1000;
          claims_request = none;
          expires_at = env.now + 60000;
        })
        before
        w'
        r

-- Why a code was issued for a callback without an envelope.
pub record IsUnsolicited {Bytes : Type 0} (env : Env) (deps : FlowDeps Bytes)
    (input : HandleCallbackInput) (w' : World) (r : IssuedCode) : Type 0 where
  pub tenant : TenantContext
  pub method : AuthMethod
  pub method_id : String
  pub posted : input.raw_request.method ≡ "POST"
  pub known_tenant : input.tenant ≡ some tenant
  pub at :
      callback_method_id env deps input (segments 47 input.raw_request.pathname) ≡ some method_id
  pub asked : World
  pub resolved : (resolve env deps.factories tenant.config method_id asked).0 ≡ ok method
  pub opted_in : method.unsolicited_callback ≡ true
  pub bound : IsBound env deps input tenant method method_id w' r

module _ {Bytes : Type 0} (env : Env) (deps : FlowDeps Bytes) (input : HandleCallbackInput) where
  module _ (tenant : TenantContext) (method : AuthMethod) (method_id : String) where
    issue_unsolicited-IsBound :
        (binding : UnsolicitedBinding) (subject : String) (properties : Json) (w : World)
        (r : IssuedCode)
        → (issue_unsolicited env deps input tenant method method_id binding subject properties w).0
          ≡ ok (code_issued r)
        → IsBound env deps input tenant method method_id
            (issue_unsolicited env deps input tenant method method_id binding subject properties
              w).1
            r
    unfolding issue_unsolicited
    issue_unsolicited-IsBound binding subject properties w r h =
        let P = λ (w' : World). IsBound env deps input tenant method method_id w' r in
        let out = code_issued r in
        let payload =
          unsolicited_payload env deps input tenant method method_id binding subject properties in
        after_bind P
          (lift (or_fail (binding_unknown binding) (find_client tenant.config binding.client_id))) _
          w out h
          λ client found h1.
            after_bind P
              (require (includes client.redirect_uris binding.redirect_uri)
                (binding_unregistered binding))
              (λ _. issue_code env payload "" >>= λ x. pure (code_issued x)) w out h1
              λ done passed h2.
                let w1 : World =
                  (require {S = World} (includes client.redirect_uris binding.redirect_uri)
                    (binding_unregistered binding) w).1 in
                after_bind P (issue_code env payload "") (λ x. pure (code_issued x)) w1 out h2
                  λ q made h3. record {
                    client = client;
                    binding = binding;
                    subject = subject;
                    properties = properties;
                    before = w1;
                    registered = or_fail-eq-ok _ _ client found;
                    redirect = ground arith;
                    issued =
                        subst
                          (λ (x : IssuedCode).
                            IsIssued env payload w1 (issue_code env payload "" w1).1 x)
                          (ground arith) (issue_code-IsIssued env payload "" w1 q made);
                  }

    translate_unsolicited-IsBound :
        (result : MethodResult) (w : World) (r : IssuedCode)
        → (translate_unsolicited env deps input tenant method method_id result w).0
          ≡ ok (code_issued r)
        → IsBound env deps input tenant method method_id
            (translate_unsolicited env deps input tenant method method_id result w).1
            r
    unfolding translate_unsolicited
    translate_unsolicited-IsBound (challenge v s) w r h = absurd (cc)
    translate_unsolicited-IsBound (success s p none) w r h = absurd (cc)
    translate_unsolicited-IsBound (success s p (some b)) w r h =
        issue_unsolicited-IsBound b s p w r h
    translate_unsolicited-IsBound (denied reason cookies) w r h = absurd (cc)
    translate_unsolicited-IsBound (error e) w r h = absurd (cc)

    unsolicited-IsBound :
        (w : World) (r : IssuedCode)
        → (unsolicited env deps input tenant method method_id w).0 ≡ ok (code_issued r)
        → IsBound env deps input tenant method method_id
            (unsolicited env deps input tenant method method_id w).1
            r
    unfolding unsolicited
    unsolicited-IsBound w r h =
        let P = λ (w' : World). IsBound env deps input tenant method method_id w' r in
        let out = code_issued r in
        after_bind P
          (lift (
            or_fail rejected_promise (
              callback_target deps.parse_url env.issuer_url method_id
                (some input.raw_request.host))))
          _ w out h
          λ callback at h1.
            let dispatch =
              dispatch_method env.now
                (unsolicited_dispatch env deps input tenant method callback) in
            after_bind P dispatch (translate_unsolicited env deps input tenant method method_id) w
              out h1 λ result ran h2. translate_unsolicited-IsBound result (dispatch w).1 r h2

  -- Of the tenant and the method that a callback names.
  abbrev IsFound : TenantContext → String → IssuedCode → World → Type 0
  IsFound tenant method_id r w' =
      (method : AuthMethod) × (asked : World) × ((resolve env deps.factories tenant.config method_id
          asked).0
        ≡ ok method)
      × (method.unsolicited_callback ≡ true)
      × IsBound env deps input tenant method method_id w' r

  answered_if-IsBound :
      (b : Bool) (tenant : TenantContext) (method : AuthMethod) (method_id : String) (w : World)
      (r : IssuedCode)
      → (answered_if env deps input b tenant method method_id w).0 ≡ ok (some (code_issued r))
      → (b ≡ true)
        × IsBound env deps input tenant method method_id
            (answered_if env deps input b tenant method method_id w).1
            r
  unfolding answered_if
  answered_if-IsBound true tenant method method_id w r h = (
    refl,
    after_bind (λ w'. IsBound env deps input tenant method method_id w' r)
        (unsolicited env deps input tenant method method_id) (λ x. pure (some x)) w
        (some (code_issued r)) h
        λ out made h1. unsolicited-IsBound tenant method method_id w r (made ∙ ground arith),
  )
  answered_if-IsBound false tenant method method_id w r h = absurd (cc)

  if_opted_in-IsFound :
      (tenant : TenantContext) (method_id : String) (m : Result AuthMethod) (asked w : World)
      (r : IssuedCode)
      → (resolve env deps.factories tenant.config method_id asked).0 ≡ m
      → (if_opted_in env deps input tenant method_id m w).0 ≡ ok (some (code_issued r))
      → IsFound tenant method_id r (if_opted_in env deps input tenant method_id m w).1
  unfolding if_opted_in
  if_opted_in-IsFound tenant method_id (err e) asked w r e' h = absurd (cc)
  if_opted_in-IsFound tenant method_id (ok method) asked w r e h =
      let (opted, bound) =
        answered_if-IsBound method.unsolicited_callback tenant method method_id w r h in
      (method, asked, e, opted, bound)

  try_for-IsUnsolicited :
      (t : Option TenantContext) (id : Option String) (w : World) (r : IssuedCode)
      → (try_for env deps input t id w).0 ≡ ok (some (code_issued r))
      → (tenant : TenantContext) × (method_id : String) × (t ≡ some tenant)
        × (id ≡ some method_id)
        × IsFound tenant method_id r (try_for env deps input t id w).1
  unfolding try_for
  try_for-IsUnsolicited none id w r h = absurd (cc)
  try_for-IsUnsolicited (some tenant) none w r h = absurd (cc)
  try_for-IsUnsolicited (some tenant) (some method_id) w r h = (
    tenant,
    method_id,
    refl,
    refl,
    after_bind (IsFound tenant method_id r)
        (attempt (resolve env deps.factories tenant.config method_id))
        (if_opted_in env deps input tenant method_id) w (some (code_issued r)) h
        λ m resolved h1.
          if_opted_in-IsFound tenant method_id m w
            (resolve env deps.factories tenant.config method_id w).1 r (ground arith) h1,
  )

  pub try_idp_initiated-IsUnsolicited :
      (w : World) (r : IssuedCode)
      → (try_idp_initiated env deps input w).0 ≡ ok (some (code_issued r))
      → IsUnsolicited env deps input (try_idp_initiated env deps input w).1 r
  unfolding try_idp_initiated
  try_idp_initiated-IsUnsolicited w r h = elim (Bool-cases (input.raw_request.method == "POST")) [
    | inl e ↦ rw e (
        let (tenant, method_id, known, at, found) =
          try_for-IsUnsolicited input.tenant
            (callback_method_id env deps input (segments 47 input.raw_request.pathname)) w r
            (rw e at h) in
        record {
          tenant = tenant;
          method = found.0;
          method_id = method_id;
          posted = (eq_iff input.raw_request.method "POST").0 e;
          known_tenant = known;
          at = at;
          asked = found.1;
          resolved = found.2;
          opted_in = found.3;
          bound = found.4;
        })
    | inr e ↦ absurd (ground arith)
  ]
