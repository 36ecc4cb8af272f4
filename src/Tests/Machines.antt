-- ===== src/Tests/Machines.antt =====
-- Witness for domain/client-credentials.ts of packages/openauth/src.
use openauth.Prelude.{true, none, some, [], ◌∷◌, ◌≡◌, refl, join, words}
use openauth.Types.Error.{ok}
use openauth.Types.Json.{obj, null}
use openauth.Types.Tenant.{client_credentials, m2m, ClientConfig, TenantConfig}
use openauth.Types.Token.{TokenResponse, bearer}
use openauth.Subject.{validate_subject_claim, schema_for}
use openauth.ClientAuth.{verify_client_credentials, hash_client_secret}
use openauth.Crypto.{timing_safe_equal_str}
use openauth.World.{Env}
use openauth.Token.Mint.{mint_tokens, prepare, issue}
use openauth.Token.Exchange.{subject_claim}
use openauth.ClientCredentials.{
  ClientCredentialsRequest, MethodCache, asked_scopes, client_check, grant_client, dispatch_client,
  with_m2m_client, client_credentials_grant,
}
use openauth.Tests.Platforms.{encode}
use openauth.Tests.Fixtures.{env, web, acme, world, profile}

abbrev job : ClientConfig
job = record web { id = "job"; grant_types = client_credentials ∷ []; scopes = "read" ∷ [] }

abbrev tenant : TenantConfig
tenant = record acme {
  clients = job ∷ [];
  methods = record { id = "m2m"; kind = "m2m"; type = m2m; config = null; enabled = true } ∷ [];
}

abbrev machine_env : Env
machine_env = record env { config = λ t. ok tenant }

abbrev resolve : MethodCache
resolve t id = ok (record { id = id; kind = "m2m"; client = some (λ i s p. ok (obj profile)) })

abbrev job_request : ClientCredentialsRequest
job_request = record {
  client_id = "job";
  client_secret = "s3cret";
  scope = some "read";
  params = [];
}

abbrev job_response : TokenResponse
job_response = record {
  access_token = "access";
  token_type = bearer;
  expires_in = 900;
  refresh_token = none;
  id_token = none;
  scope = "read";
}

granted :
    (client_credentials_grant machine_env resolve job_request "acme" world).0 ≡ ok job_response
unfolding client_credentials_grant with_m2m_client client_check dispatch_client grant_client
    verify_client_credentials hash_client_secret timing_safe_equal_str encode subject_claim
    validate_subject_claim schema_for mint_tokens prepare issue join asked_scopes words
granted = refl
