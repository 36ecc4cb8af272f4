-- ===== src/Tests/Refreshes.antt =====
-- Witnesses for domain/refresh.ts and revoke.ts of packages/openauth/src.
use openauth.Prelude.{String, true, none, some, ◌≡◌, ◌≢◌, ◌⊎◌, refl, arith, join, eq_iff}
use openauth.Types.Error.{ok}
use openauth.Types.Tenant.{TenantConfig}
use openauth.Types.Token.{RefreshTokenPayload, TokenResponse, dpop}
use openauth.ClientAuth.{verify_client_credentials}
use openauth.TokenStore.{peek_refresh, consume_refresh, save_refresh}
use openauth.IdToken.{should_issue_id_token}
use openauth.Token.Mint.{mint_tokens, prepare, issue}
use openauth.Refresh.{
  RefreshGrantRequest, gate, gate_peeked, gate_checks, refresh_gated, consume, rotate,
  requested_scopes, refresh_tokens,
}
use openauth.Refresh.Gate.{IsAcceptable}
use openauth.Refresh.Sound.{IsRefreshed, refresh_tokens-IsRefreshed, refresh_tokens-unburned}
use openauth.Refresh.Once.{IsReuseRefused, refresh_tokens_twice, refresh_tokens-reuse}
use openauth.Revoke.{RevokeRequest, refresh_token, revoke_token, has_credentials}
use openauth.Revoke.Laws.{IsRevoker, revoke_token-IsRevoker}
use openauth.Tests.Platforms.{platform-IsUtf8}
use openauth.Tests.Fixtures.{env, world, used_world, used_row, refresh_row, acme, spa}

abbrev pub request : RefreshGrantRequest
request = record {
  refresh_token = "r1";
  scope = none;
  client_id = some "spa";
  client_secret = none;
  dpop_jkt = some "k1";
}

abbrev response : TokenResponse
response = record {
  access_token = "access";
  token_type = dpop;
  expires_in = 900;
  refresh_token = some "r2";
  id_token = some "id";
  scope = "openid email";
}

refreshed : (refresh_tokens env request world).0 ≡ ok response
unfolding refresh_tokens gate gate_peeked gate_checks refresh_gated consume rotate requested_scopes
    peek_refresh consume_refresh verify_client_credentials mint_tokens prepare issue save_refresh
    should_issue_id_token join
refreshed = refl

refresh_tokens-IsRefreshed_example :
    IsRefreshed env request world (refresh_tokens env request world).1 response
refresh_tokens-IsRefreshed_example =
    refresh_tokens-IsRefreshed env request world response platform-IsUtf8 refreshed

refresh_tokens-unburned_example :
    ((refresh_tokens env request world).1 ≡ world)
    ⊎ ((p : RefreshTokenPayload) × (tenant : TenantConfig) × IsAcceptable env request world p
          tenant)
refresh_tokens-unburned_example = refresh_tokens-unburned env request world platform-IsUtf8

spa_is_not_web : ◌≢◌ {A = String} "web" "spa"
spa_is_not_web h = ground (arith, eq_iff "web" "spa")

new_is_not_old : ◌≢◌ {A = String} "r2" "r1"
new_is_not_old h = ground (arith, eq_iff "r2" "r1")

refresh_tokens_twice_example :
    (refresh_tokens (record env { now = 3000 }) request (refresh_tokens env request world).1).0
    ≢ ok response
refresh_tokens_twice_example =
    refresh_tokens_twice env (record env { now = 3000 }) request request world response response
      platform-IsUtf8 platform-IsUtf8 new_is_not_old refl refreshed

passed : (gate env request used_world).0 ≡ ok (refresh_row, acme)
unfolding gate gate_peeked gate_checks peek_refresh verify_client_credentials
passed = refl

refresh_tokens-reuse_example :
    IsReuseRefused env refresh_row used_row used_row "r1" used_world
      (refresh_tokens env request used_world).1
      (refresh_tokens env request used_world).0
refresh_tokens-reuse_example =
    refresh_tokens-reuse env request used_world refresh_row acme used_row used_row 1500 "r1" passed
      refl refl (omega arith) refl

abbrev revocation : RevokeRequest
revocation = record {
  token = "r1";
  token_type_hint = some refresh_token;
  client_id = some "spa";
  client_secret = none;
}

revoke_token-IsRevoker_example :
    ((revoke_token env revocation world).1.tokens ≡ world.tokens) ⊎ IsRevoker env revocation world
revoke_token-IsRevoker_example = revoke_token-IsRevoker env revocation world platform-IsUtf8

authenticated : verify_client_credentials env.platform spa none ≡ none
unfolding verify_client_credentials
authenticated = refl

may_ask : has_credentials spa.type (some "spa") none ≡ true
unfolding has_credentials
may_ask = refl
