-- ===== src/Par.antt =====
-- packages/openauth/src/domain/par.ts: pushed authorization requests, over a store that has the two
-- operations for them. A record of parameters is a list of its entries, whose keys are distinct.
pub mod Laws
use openauth.Prelude.{
  ℕ, ◌+◌, ◌/◌, String, Bool, true, false, not, Option, none, some, List, [], ◌∷◌, ◌==◌, ◌<>◌, any,
  keep, find, get_or_else, if◌then◌else◌, is_some,
}
use openauth.Types.Error.{AuthError, Result, or_fail, Check, invalid_request, invalid_client}
use openauth.Types.Effect.{Exec, pure, lift, require, check, ◌>>=◌, ◌>>◌}
use openauth.Types.Tenant.{
  ClientConfig, ClientType, public, confidential, TenantConfig, find_client,
}
use openauth.Types.Flow.{ParRecord}
use openauth.ClientAuth.{verify_client_credentials}
use openauth.Crypto.{Platform}
use openauth.SessionStore.{SessionStore, save_par}

abbrev pub par_uri_prefix : String
par_uri_prefix = "urn:ietf:params:oauth:request_uri:"

abbrev pub default_par_ttl_ms : ℕ
default_par_ttl_ms = 60000

pub record ParRequest : Type 0 where
  pub client_id : String
  pub client_secret : Option String
  pub params : List (String × String)

pub record ParResponse : Type 0 where
  pub request_uri : String
  pub expires_in : ℕ

-- `params[key]`
unfoldable pub param : String → List (String × String) → Option String
param key [] = none
param key ((k, v) ∷ rest) = if k == key then some v else param key rest

-- `{ ...params, [key]: value }`
unfoldable pub set_param : String → String → List (String × String) → List (String × String)
set_param key value params = (key, value) ∷ keep (λ e. not (e.0 == key)) params

-- `params.client_id && params.client_id !== req.clientId`
unfoldable pub conflicts : Option String → String → Bool
conflicts none id = false
conflicts (some v) id = if v == "" then false else not (v == id)

-- The texts of the errors.
unfoldable pub unknown_client : String → AuthError
unknown_client id = invalid_client ("unknown client \"" <> (id <> "\""))

abbrev pub id_conflicts : AuthError
id_conflicts =
    invalid_request "client_id in body conflicts with authenticated client" (some "client_id")

abbrev pub nested_request : AuthError
nested_request =
    invalid_request "request_uri MUST NOT be present in a PAR request" (some "request_uri")

credentials_for : Platform → ClientConfig → ClientType → Option String → Check
credentials_for platform client (confidential h p) secret =
    verify_client_credentials platform client secret
credentials_for platform client public secret =
    if is_some secret
    then some (invalid_client "public client must not present client_secret")
    else none

-- Steps 1 and 2, after the client is found.
unfoldable pub par_check : Platform → ParRequest → ClientConfig → Exec SessionStore (Unit {0})
unfolding credentials_for
par_check platform req client = do
  check (credentials_for platform client client.type req.client_secret)
  require (not (conflicts (param "client_id" req.params) req.client_id)) id_conflicts
  require (not (is_some (param "request_uri" req.params))) nested_request

module _ (platform : Platform) (now : ℕ) (suffix : String) (ttl_ms : Option ℕ) where
  abbrev pub par_ttl : ℕ
  par_ttl = get_or_else ttl_ms default_par_ttl_ms

  abbrev pub pushed : ParRequest → ParRecord
  pushed req = record {
    request_uri = par_uri_prefix <> suffix;
    params = set_param "client_id" req.client_id req.params;
    client_id = req.client_id;
    issued_at = now;
    expires_at = now + par_ttl;
  }

  -- Step 3
  unfoldable pub push_params : ParRequest → Exec SessionStore ParResponse
  push_params req = do
    save_par now (par_uri_prefix <> suffix) (pushed req) par_ttl
    pure (record { request_uri = par_uri_prefix <> suffix; expires_in = par_ttl / 1000 })

  unfoldable pub push_authorization_request :
      ParRequest → TenantConfig → Exec SessionStore ParResponse
  push_authorization_request req tenant = do
    client ← lift (or_fail (unknown_client req.client_id) (find_client tenant req.client_id))
    par_check platform req client
    push_params req
