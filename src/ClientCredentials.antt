-- ===== src/ClientCredentials.antt =====
-- packages/openauth/src/domain/client-credentials.ts: `grant_type=client_credentials`. What the method
-- cache resolves, and what the method says of the client, are parameters.
pub mod Laws
use openauth.Prelude.{
  String, Bool, true, false, ◌&&◌, Option, none, some, List, [], ◌∷◌, ◌==◌, ◌<>◌, if◌then◌else◌,
  keep, includes, words,
}
use openauth.Types.Error.{
  AuthError, Result, ok, err, or_fail, Check, invalid_client, unauthorized_client, invalid_scope,
  method_not_found,
}
use openauth.Types.Effect.{Exec, lift, require, check, ◌>>=◌, ◌>>◌}
use openauth.Types.Json.{Json}
use openauth.Types.Tenant.{
  GrantType, authorization_code, refresh_token, client_credentials, MethodType, m2m, MethodConfig,
  ClientType, public, confidential, ClientConfig, TenantConfig, find_client,
}
use openauth.Types.Token.{SubjectClaim, TokenResponse}
use openauth.ClientAuth.{verify_client_credentials}
use openauth.World.{SuccessMapInput, Env, World}
use openauth.Token.Mint.{MintArgs, mint_tokens}
use openauth.Token.Exchange.{subject_claim}

pub record ClientCredentialsRequest : Type 0 where
  pub client_id : String
  pub client_secret : String
  pub scope : Option String
  pub params : List (String × String)

-- A resolved method; `client` is given the id, the secret and the parameters.
pub record M2mMethod : Type 0 where
  pub id : String
  pub kind : String
  pub client : Option (String → String → List (String × String) → Result Json)

abbrev pub MethodCache : Type 0
MethodCache = TenantConfig → String → Result M2mMethod

-- `client.type === "confidential"`
unfoldable pub is_confidential : ClientType → Bool
is_confidential public = false
is_confidential (confidential secret_hash pkce) = true

-- `grantTypes.includes("client_credentials")`
unfoldable pub allows_client_credentials : List GrantType → Bool
allows_client_credentials [] = false
allows_client_credentials (client_credentials ∷ rest) = true
allows_client_credentials (authorization_code ∷ rest) = allows_client_credentials rest
allows_client_credentials (refresh_token ∷ rest) = allows_client_credentials rest

unfoldable pub asked_scopes : Option String → List String → List String
asked_scopes none scopes = scopes
asked_scopes (some scope) scopes = if scope == "" then scopes else words scope

unfoldable pub scopes_allowed : List String → List String → Check
scopes_allowed allowed [] = none
scopes_allowed allowed (s ∷ rest) =
    if includes allowed s
    then scopes_allowed allowed rest
    else some (invalid_scope ("scope \"" <> s <> "\" not allowed for client"))

abbrev is_m2m : MethodType → Bool
is_m2m m2m = true
is_m2m _ = false

-- `methods.filter((m) => m.type === "m2m" && m.enabled)`
abbrev pub m2m_methods : TenantConfig → List MethodConfig
m2m_methods tenant = keep (λ m. is_m2m m.type && m.enabled) tenant.methods

single : List MethodConfig → Result MethodConfig
single [] = err (method_not_found "no enabled m2m method on tenant" none none)
single (m ∷ []) = ok m
single (m ∷ n ∷ ms) =
    err (method_not_found "multiple m2m methods configured — only one supported" none none)

client_of :
    MethodConfig → M2mMethod → Result (String → String → List (String × String) → Result Json)
client_of config method =
    or_fail
      (method_not_found ("m2m method \"" <> config.id <> "\" did not register a client fn")
        (some config.id) (some method.kind))
      method.client

module _ (env : Env) (resolve : MethodCache) where
  -- The rest of step 1, and step 2.
  unfoldable pub client_check : ClientCredentialsRequest → ClientConfig → Exec World (Unit {0})
  unfolding is_confidential allows_client_credentials scopes_allowed asked_scopes
  client_check req client = do
    require (is_confidential client.type)
        (invalid_client "client_credentials requires confidential client")
    require (allows_client_credentials client.grant_types) (
        unauthorized_client
          ("client \"" <> client.id <> "\" is not authorized for client_credentials"))
    check (verify_client_credentials env.platform client (some req.client_secret))
    check (scopes_allowed client.scopes (asked_scopes req.scope client.scopes))

  abbrev pub m2m_input :
      ClientCredentialsRequest → TenantConfig → M2mMethod → Json → SuccessMapInput
  m2m_input req tenant method properties = record {
    tenant_id = tenant.id;
    method_id = method.id;
    method_kind = method.kind;
    provider_subject = req.client_id;
    properties = properties;
    context = none;
  }

  abbrev pub m2m_args :
      ClientCredentialsRequest → TenantConfig → ClientConfig → M2mMethod → SubjectClaim → MintArgs
  m2m_args req tenant client method claim = record {
    tenant = tenant;
    claim = claim;
    tenant_id = tenant.id;
    client_id = client.id;
    method_id = method.id;
    method_kind = method.kind;
    scopes = asked_scopes req.scope client.scopes;
    audience = none;
    auth_time = none;
    app_nonce = none;
    dpop_jkt = none;
    claims_request = none;
    family = env.new_family;
    skip_refresh = true;
  }

  -- Steps 5 and 6
  unfoldable pub grant_client :
      ClientCredentialsRequest
      → TenantConfig
      → ClientConfig
      → M2mMethod
      → Json
      → Exec World TokenResponse
  grant_client req tenant client method properties = do
    claim ← subject_claim env (m2m_input req tenant method properties) client.id
    mint_tokens env (m2m_args req tenant client method claim)

  -- Steps 3 and 4, and the rest.
  unfoldable pub dispatch_client :
      ClientCredentialsRequest → TenantConfig → ClientConfig → Exec World TokenResponse
  unfolding single client_of
  dispatch_client req tenant client = do
    config ← lift (single (m2m_methods tenant))
    method ← lift (resolve tenant config.id)
    say ← lift (client_of config method)
    properties ← lift (say req.client_id req.client_secret req.params)
    grant_client req tenant client method properties

  unfoldable pub with_m2m_client :
      ClientCredentialsRequest → TenantConfig → Exec World TokenResponse
  with_m2m_client req tenant = do
    client ← lift (
        or_fail (invalid_client ("unknown client \"" <> req.client_id <> "\""))
          (find_client tenant req.client_id))
    client_check req client
    dispatch_client req tenant client

  unfoldable pub client_credentials_grant :
      ClientCredentialsRequest → String → Exec World TokenResponse
  client_credentials_grant req tenant_id = do
    tenant ← lift (env.config tenant_id)
    with_m2m_client req tenant
