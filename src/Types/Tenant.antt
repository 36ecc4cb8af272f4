-- ===== src/Types/Tenant.antt =====
-- packages/openauth/src/types/tenant.ts, ports/config-store.ts. Display names, themes, the cookie
-- domain and the SCIM settings of a tenant are not modelled.
use openauth.Prelude.{ℕ, String, Bool, true, Option, List, ◌==◌, find}
use openauth.Types.Error.{Result}
use openauth.Types.Json.{Json}

pub data GrantType : Type 0 where
  authorization_code refresh_token client_credentials : GrantType

pub data MethodType : Type 0 where
  oauth2 oidc password code m2m passkey custom : MethodType

pub record MethodConfig : Type 0 where
  pub id : String
  pub kind : String
  pub type : MethodType
  pub config : Json
  pub enabled : Bool

-- The two variants of `ClientConfig`: only a confidential client has a `secretHash`, and a public
-- client's `pkceRequired` is the literal `true`.
pub data ClientType : Type 0 where
  public : ClientType
  confidential : String → Bool → ClientType

pub record ClientConfig : Type 0 where
  pub id : String
  pub type : ClientType
  pub redirect_uris : List String
  pub grant_types : List GrantType
  pub scopes : List String
  pub post_logout_redirect_uris : List String
  pub require_pushed_authorization_requests : Bool
  pub sector_identifier : Option String
  pub dpop_required : Bool

abbrev pub pkce_required : ClientType → Bool
pkce_required public = true
pkce_required (confidential secret_hash pkce) = pkce

pub record TenantConfig : Type 0 where
  pub id : String
  pub clients : List ClientConfig
  pub methods : List MethodConfig
  -- lifetimes in seconds
  pub refresh_ttl : Option ℕ
  pub access_ttl : Option ℕ

-- `tenant.clients.find((c) => c.id === id)`
abbrev pub find_client : TenantConfig → String → Option ClientConfig
find_client t i = find (λ c. c.id == i) t.clients

-- `configStore.getTenantConfig`
abbrev pub ConfigStore : Type 0
ConfigStore = String → Result TenantConfig
