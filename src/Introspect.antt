-- ===== src/Introspect.antt =====
-- packages/openauth/src/domain/introspect.ts (RFC 7662). The hint of the token's type is never read.
pub mod Laws
use openauth.Prelude.{
  ℕ, ◌/◌, String, Bool, true, false, not, Option, none, some, ◌==◌, ◌<>◌, if◌then◌else◌, is_some,
}
use openauth.Types.Error.{AuthError, Result, ok, err, or_fail, and_then, passed, invalid_client}
use openauth.Types.Tenant.{TenantConfig, ClientConfig, find_client}
use openauth.Types.Token.{AccessTokenClaims, TokenType, bearer, dpop}
use openauth.ClientAuth.{verify_client_credentials}
use openauth.World.{Env, SigningKey}

pub record ActiveToken : Type 0 where
  pub sub : String
  pub aud : String
  pub iss : String
  pub exp : ℕ
  pub iat : ℕ
  pub scope : Option String
  pub client_id : String
  pub token_type : TokenType
  pub tid : String
  pub mid : Option String
  pub mkind : Option String
  pub subject_type : String
  pub cnf : Option String

pub data IntrospectResponse : Type 0 where
  inactive : IntrospectResponse
  active : ActiveToken → IntrospectResponse

pub record IntrospectRequest : Type 0 where
  pub token : String
  pub client_id : String
  pub client_secret : Option String
  pub presenter_tenant_id : String

abbrev pub unknown_presenter : String → AuthError
unknown_presenter client_id = invalid_client ("unknown client \"" <> client_id <> "\"")

unfoldable pub active_token : AccessTokenClaims → ActiveToken
active_token c = record {
  sub = c.sub;
  aud = c.aud;
  iss = c.iss;
  exp = c.exp;
  iat = c.iat;
  scope = c.scope;
  client_id = c.aud;
  token_type = if is_some c.cnf then dpop else bearer;
  tid = c.tid;
  mid = c.mid;
  mkind = c.mkind;
  subject_type = c.claim.type;
  cnf = c.cnf;
}

-- Steps 3 and 4
unfoldable pub shown : IntrospectRequest → Option AccessTokenClaims → IntrospectResponse
unfolding active_token
shown req none = inactive
shown req (some c) =
    if not (c.tid == req.presenter_tenant_id)
    then inactive
    else if not (c.aud == req.client_id)
    then inactive
    else active (active_token c)

-- any failure of the look-up is an unknown client
abbrev presenter_tenant : String → Result TenantConfig → Result TenantConfig
presenter_tenant client_id (ok tenant) = ok tenant
presenter_tenant client_id (err e) = err (unknown_presenter client_id)

module _ (env : Env) where
  -- Step 1: the presenter, in its own tenant.
  unfoldable pub presenter : IntrospectRequest → Result ClientConfig
  presenter req =
      and_then (presenter_tenant req.client_id (env.config req.presenter_tenant_id)) λ tenant.
        and_then (or_fail (unknown_presenter req.client_id) (find_client tenant req.client_id))
          λ client.
            and_then (passed (verify_client_credentials env.platform client req.client_secret))
              λ _. ok client

  -- `deps.issuerUrl ? { issuer } : {}`
  abbrev issuer : Option String
  issuer = if env.issuer_url == "" then none else some env.issuer_url

  -- Step 2
  unfoldable pub verified : String → Result (Option AccessTokenClaims)
  verified token =
      and_then env.keys.signing_keys
        λ keys. ok (env.jose.verify_access_token token keys issuer (env.now / 1000))

  unfoldable pub introspect : IntrospectRequest → Result IntrospectResponse
  introspect req =
      and_then (presenter req)
        λ client. and_then (verified req.token) λ claims. ok (shown req claims)
