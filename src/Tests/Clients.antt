-- ===== src/Tests/Clients.antt =====
-- Witnesses for domain/client-auth.ts and introspect.ts of packages/openauth/src.
use openauth.Prelude.{true, none, some, ◌≡◌, ◌↔◌, refl}
use openauth.Types.Error.{ok, err}
use openauth.Types.Tenant.{confidential}
use openauth.Crypto.{timing_safe_equal_str}
use openauth.ClientAuth.{verify_client_credentials, secret_mismatch, hash_client_secret}
use openauth.ClientAuth.Laws.{IsAuthentic, verify_client_credentials_iff}
use openauth.Introspect.{
  IntrospectRequest, active, active_token, introspect, presenter, verified, shown,
}
use openauth.Introspect.Laws.{IsShown, introspect-IsShown}
use openauth.Tests.Platforms.{platform, platform-IsUtf8, encode}
use openauth.Tests.Fixtures.{web, env, access_token_claims}

verify_client_credentials_iff_example :
    (verify_client_credentials platform web (some "s3cret") ≡ none)
    ↔ IsAuthentic platform (confidential "s3cret" true) (some "s3cret")
verify_client_credentials_iff_example =
    verify_client_credentials_iff platform web (some "s3cret") platform-IsUtf8

abbrev request : IntrospectRequest
request = record {
  token = "access";
  client_id = "web";
  client_secret = some "s3cret";
  presenter_tenant_id = "acme";
}

introspected : introspect env request ≡ ok (active (active_token access_token_claims))
unfolding introspect presenter verified shown active_token verify_client_credentials
    timing_safe_equal_str encode hash_client_secret
introspected = refl

introspect-IsShown_example : IsShown env request (active_token access_token_claims)
introspect-IsShown_example =
    introspect-IsShown env request (active_token access_token_claims) platform-IsUtf8 introspected

refused : presenter env (record request { client_secret = some "guess" }) ≡ err secret_mismatch
unfolding presenter verify_client_credentials timing_safe_equal_str encode hash_client_secret
refused = refl
