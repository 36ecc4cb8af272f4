-- ===== src/Tests/Exchanges.antt =====
-- Witnesses for packages/openauth/src/domain/token-exchange.ts.
use openauth.Prelude.{none, some, ◌≡◌, refl, join, words, ◌==◌, if◌then◌else◌}
use openauth.Types.Error.{ok}
use openauth.Types.Tenant.{TenantConfig}
use openauth.Types.Token.{TokenResponse, bearer}
use openauth.ClientAuth.{verify_client_credentials}
use openauth.World.{Env}
use openauth.TokenExchange.{
  TokenExchangeRequest, ExchangeAudience, subject_claims, exchange_claims, exchange_for,
  mint_for_target, exchange_token,
}
use openauth.TokenExchange.Sound.{IsExchanged, exchange_token-IsExchanged}
use openauth.Token.Mint.{mint_tokens, prepare, issue}
use openauth.Tests.Platforms.{platform-IsUtf8}
use openauth.Tests.Fixtures.{env, world, acme}

-- another tenant with the same clients
abbrev branch : TenantConfig
branch = record acme { id = "branch" }

abbrev both_env : Env
both_env = record env { config = λ t. if t == "branch" then ok branch else ok acme }

abbrev decide : ExchangeAudience
decide claim request = ok claim

abbrev request : TokenExchangeRequest
request = record {
  subject_token = "access";
  audience = "branch";
  client_id = some "spa";
  client_secret = none;
  scope = none;
}

abbrev exchanged_response : TokenResponse
exchanged_response = record {
  access_token = "access";
  token_type = bearer;
  expires_in = 900;
  refresh_token = some "r2";
  id_token = some "id";
  scope = "openid";
}

exchanged : (exchange_token both_env (some decide) request world).0 ≡ ok exchanged_response
unfolding exchange_token subject_claims exchange_claims exchange_for mint_for_target
    verify_client_credentials mint_tokens prepare issue join words openauth.TokenStore.save_refresh
    openauth.IdToken.should_issue_id_token
exchanged = refl

exchange_token-IsExchanged_example :
    IsExchanged both_env
      (some decide)
      request
      world
      (exchange_token both_env (some decide) request world).1
      exchanged_response
exchange_token-IsExchanged_example =
    exchange_token-IsExchanged both_env (some decide) request world exchanged_response
      platform-IsUtf8 exchanged
