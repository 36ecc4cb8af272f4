-- ===== src/Introspect/Laws.antt =====
-- Who is shown a token. About packages/openauth/src/domain/introspect.ts.
use openauth.Prelude.{
  ◌/◌, String, Option, none, some, List, ◌==◌, ◌≡◌, ◌∙◌, refl, arith, eq_iff, if◌then◌else◌,
  Option-cases, inl, inr,
}
use openauth.Types.Error.{
  AuthError, Result, ok, err, passed, or_fail, or_fail-eq-ok, after_and_then,
}
use openauth.Types.Tenant.{TenantConfig, ClientConfig, find_client}
use openauth.Types.Token.{AccessTokenClaims, bearer, dpop}
use openauth.Crypto.{IsUtf8}
use openauth.ClientAuth.{verify_client_credentials}
use openauth.ClientAuth.Laws.{IsAuthentic, verify_client_credentials_iff}
use openauth.World.{Env, SigningKey}
use openauth.Introspect.{
  ActiveToken, IntrospectRequest, active, shown, active_token, presenter_tenant, unknown_presenter,
  presenter, verified, introspect,
}

pub record IsShown (env : Env) (req : IntrospectRequest) (t : ActiveToken) : Type 0 where
  pub tenant : TenantConfig
  pub client : ClientConfig
  pub keys : List SigningKey
  pub claims : AccessTokenClaims
  pub configured : env.config req.presenter_tenant_id ≡ ok tenant
  pub registered : find_client tenant req.client_id ≡ some client
  pub authentic : IsAuthentic env.platform client.type req.client_secret
  pub trusted : env.keys.signing_keys ≡ ok keys
  pub valid :
      env.jose.verify_access_token req.token keys
        (if env.issuer_url == "" then none else some env.issuer_url)
        (env.now / 1000)
      ≡ some claims
  pub own_tenant : claims.tid ≡ req.presenter_tenant_id
  pub audience : claims.aud ≡ req.client_id
  -- what is told: the token's own claims, its audience as the client, its binding as the type
  pub told : t ≡ (record {
    sub = claims.sub;
    aud = claims.aud;
    iss = claims.iss;
    exp = claims.exp;
    iat = claims.iat;
    scope = claims.scope;
    client_id = claims.aud;
    token_type = elim claims.cnf [ none ↦ bearer | some jkt ↦ dpop ];
    tid = claims.tid;
    mid = claims.mid;
    mkind = claims.mkind;
    subject_type = claims.claim.type;
    cnf = claims.cnf;
  })

active_token_lem :
    (c : AccessTokenClaims)
    → active_token c ≡ (record {
      sub = c.sub;
      aud = c.aud;
      iss = c.iss;
      exp = c.exp;
      iat = c.iat;
      scope = c.scope;
      client_id = c.aud;
      token_type = elim c.cnf [ none ↦ bearer | some jkt ↦ dpop ];
      tid = c.tid;
      mid = c.mid;
      mkind = c.mkind;
      subject_type = c.claim.type;
      cnf = c.cnf;
    })
unfolding active_token
active_token_lem c = elim (Option-cases c.cnf) [ inl e ↦ rw e refl | inr (jkt, e) ↦ rw e refl ]

shown_sound :
    (req : IntrospectRequest) (o : Option AccessTokenClaims) (t : ActiveToken)
    → shown req o ≡ active t
    → (c : AccessTokenClaims) × (o ≡ some c)
      × (c.tid ≡ req.presenter_tenant_id)
      × (c.aud ≡ req.client_id)
      × (t ≡ active_token c)
unfolding shown
shown_sound req none t h = absurd (cc)
shown_sound req (some c) t h = (
  c,
  refl,
  ground (arith, eq_iff c.tid req.presenter_tenant_id),
  ground (arith, eq_iff c.aud req.client_id),
  ground arith,
)

presenter_tenant_sound :
    (id : String) (r : Result TenantConfig) (t : TenantConfig)
    → presenter_tenant id r ≡ ok t
    → r ≡ ok t
presenter_tenant_sound id (ok x) t h = h
presenter_tenant_sound id (err e) t h = absurd (cc)

module _ (env : Env) where
  -- Over an encoding that keeps the laws of UTF-8, a token is shown as active only to a
  -- registered, authenticated client of the presenter's tenant, only if it verifies under the
  -- signing keys and names that tenant and, as its audience, that client; what is told is the
  -- token's own subject, audience, issuer, times, scope, tenant, method, type of subject and key,
  -- with the audience as the client and DPoP as the type just when there is a key.
  pub introspect-IsShown :
      (req : IntrospectRequest) (t : ActiveToken)
      → IsUtf8 env.platform
      → introspect env req ≡ ok (active t)
      → IsShown env req t
  unfolding introspect presenter verified
  introspect-IsShown req t utf8 h =
      let P = IsShown env req t in
      after_and_then P (presenter env req) _ (active t) h λ client found h1.
        after_and_then P (verified env req.token) _ (active t) h1 λ seen read h2.
          after_and_then P (presenter_tenant req.client_id (env.config req.presenter_tenant_id)) _
            client found
            λ tenant configured f1.
              after_and_then P
                (or_fail (unknown_presenter req.client_id) (find_client tenant req.client_id)) _
                client f1
                λ c registered f2.
                  after_and_then P
                    (passed (verify_client_credentials env.platform c req.client_secret)) _ client
                    f2
                    λ checked authentic f3.
                      after_and_then P env.keys.signing_keys _ seen read λ keys trusted r1.
                        let (claims, valid, own, audience, told) =
                          shown_sound req seen t (ground arith) in
                        record {
                          tenant = tenant;
                          client = c;
                          keys = keys;
                          claims = claims;
                          configured = presenter_tenant_sound req.client_id _ tenant configured;
                          registered = or_fail-eq-ok _ _ c registered;
                          authentic =
                              (verify_client_credentials_iff env.platform c req.client_secret
                                  utf8).0
                                (ground arith);
                          trusted = trusted;
                          valid = ground arith;
                          own_tenant = own;
                          audience = audience;
                          told = told ∙ active_token_lem claims;
                        }

  -- When the presenter is refused, introspection answers with that refusal whatever the token is.
  pub introspect-unauthenticated :
      (req : IntrospectRequest) (e : AuthError) (token : String)
      → presenter env req ≡ err e
      → (introspect env req ≡ err e) × (introspect env (record req { token = token }) ≡ err e)
  unfolding introspect presenter
  introspect-unauthenticated req e token h = (rw h refl, rw h refl)
