-- ===== src/Authorize/Admitted.antt =====
-- What a request has passed when /authorize answers it. About
-- packages/openauth/src/domain/authorize.ts.
use openauth.Prelude.{
  String, true, Option, none, some, ◌≡◌, ◌≢◌, arith, eq_iff, Option-cases, inl, inr, All, includes,
}
use openauth.Types.Error.{ok, or_fail, or_fail-eq-ok}
use openauth.Types.Effect.{lift, bind-eq-ok}
use openauth.Types.Tenant.{ClientConfig, TenantConfig, find_client, pkce_required}
use openauth.Types.Method.{TenantContext}
use openauth.ClientCredentials.Laws.{scopes_allowed_sound}
use openauth.World.{Env, World}
use openauth.Flow.{FlowDeps}
use openauth.Authorize.{
  AuthorizationRequest, AuthorizeOutput, allows_authorization_code, validate_scopes, unknown_client,
  validate_pkce_requirement, authorize_check, client_pkce_of, authorize_client, start_authorize,
}

-- A challenge, and no method but S256.
pub record HasChallenge (req : AuthorizationRequest) : Type 0 where
  pub challenge : String
  pub presented : req.code_challenge ≡ some challenge
  pub kept : client_pkce_of req.code_challenge ≡ some challenge
  pub s256 : (m : String) → req.code_challenge_method ≡ some m → m ≢ "" → m ≡ "S256"

-- The client is registered and may ask this.
pub record IsAdmitted (req : AuthorizationRequest) (tenant : TenantConfig) (client : ClientConfig)
    : Type 0 where
  pub registered : find_client tenant req.client_id ≡ some client
  pub redirect : includes client.redirect_uris req.redirect_uri ≡ true
  pub code_only : req.response_type ≡ "code"
  pub granted : allows_authorization_code client.grant_types ≡ true
  pub within : All (λ s. includes client.scopes s ≡ true) req.scopes
  pub pkce : pkce_required client.type ≡ true → HasChallenge req

validate_pkce_requirement_sound :
    (req : AuthorizationRequest) (client : ClientConfig)
    → validate_pkce_requirement req client ≡ none
    → pkce_required client.type ≡ true
    → HasChallenge req
unfolding validate_pkce_requirement client_pkce_of
validate_pkce_requirement_sound req client h k = elim (Option-cases req.code_challenge) [
  | inl e ↦ absurd (ground arith)
  | inr (c, e) ↦ record {
    challenge = c;
    presented = e;
    kept = ground arith;
    s256 = λ m f ne. ground (arith, eq_iff m "", eq_iff m "S256");
  }
]

pub authorize_check_sound :
    (req : AuthorizationRequest) (tenant : TenantConfig) (client : ClientConfig) (w : World)
    → find_client tenant req.client_id ≡ some client
    → (authorize_check req client w).0 ≡ ok tt
    → IsAdmitted req tenant client
unfolding authorize_check validate_scopes
authorize_check_sound req tenant client w found h = record {
  registered = found;
  redirect = ground arith;
  code_only = ground (arith, eq_iff req.response_type "code");
  granted = ground arith;
  within = scopes_allowed_sound client.scopes req.scopes (ground arith);
  pkce = validate_pkce_requirement_sound req client (ground arith);
}

module _ {Bytes : Type 0} (env : Env) (deps : FlowDeps Bytes) (req : AuthorizationRequest)
    (tenant : TenantContext) (cookies : String → Option String) where
  -- Whenever startAuthorize succeeds, the client is registered, the redirect URI is one of its
  -- own, the response type is code, the client may use the grant, every scope is one of its own,
  -- and where it requires PKCE there is a challenge, with no method named but S256.
  pub start_authorize-IsAdmitted :
      (w : World) (out : AuthorizeOutput)
      → (start_authorize env deps req tenant cookies w).0 ≡ ok out
      → (client : ClientConfig) × IsAdmitted req tenant.config client
  unfolding start_authorize authorize_client
  start_authorize-IsAdmitted w out h =
      let (client, found, h1) =
        bind-eq-ok
          (lift (or_fail (unknown_client req.client_id) (find_client tenant.config req.client_id)))
          (authorize_client env deps req tenant cookies) w out h in
      let (done, passed, h2) = bind-eq-ok (authorize_check req client) _ w out h1 in
      (
        client,
        authorize_check_sound req tenant.config client w (or_fail-eq-ok _ _ client found) passed,
      )
