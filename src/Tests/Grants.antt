-- ===== src/Tests/Grants.antt =====
-- Witnesses for the exchange of a code, domain/token.ts of packages/openauth/src.
use openauth.Prelude.{false, none, some, [], ◌≡◌, ◌⊎◌, refl, join, utf16_length}
use openauth.Types.Error.{AuthError, ok, err, server_error}
use openauth.Types.Token.{TokenResponse, bearer}
use openauth.TokenStore.{code_unknown, consume_code, save_refresh}
use openauth.Subject.{validate_subject_claim, schema_for}
use openauth.ClientAuth.{verify_client_credentials}
use openauth.Crypto.{timing_safe_equal_str}
use openauth.Pkce.{validate_pkce, s256_challenge}
use openauth.IdToken.{should_issue_id_token}
use openauth.World.{Env}
use openauth.Token.Mint.{MintArgs, id_token_failed, prepare, issue, mint_tokens}
use openauth.Token.Mint.Laws.{IsMinted, mint_tokens-IsMinted, mint_tokens-err}
use openauth.Token.Exchange.{
  TokenAuthCodeRequest, decrypted, request_check, subject_claim, grant_code, with_tenant, mint_args,
  exchange_payload, exchange_code, run_persist,
}
use openauth.Token.Exchange.Sound.{IsGranted, exchange_code-IsGranted}
use openauth.Token.Exchange.Once.{exchange_code_twice}
use openauth.Tests.Platforms.{platform-IsUtf8, encode}
use openauth.Tests.Fixtures.{env, world, verifier, code_payload, acme, user}

abbrev request : TokenAuthCodeRequest
request = record {
  code = "c1";
  redirect_uri = "https://spa.example/cb";
  client_id = "spa";
  client_secret = none;
  code_verifier = some verifier;
  dpop_jkt = none;
}

abbrev response : TokenResponse
response = record {
  access_token = "access";
  token_type = bearer;
  expires_in = 900;
  refresh_token = some "r2";
  id_token = some "id";
  scope = "openid email";
}

abbrev args : MintArgs
args = mint_args env request code_payload acme user

minted : (mint_tokens env args world).0 ≡ ok response
unfolding mint_tokens prepare issue save_refresh should_issue_id_token join
minted = refl

mint_tokens-IsMinted_example : IsMinted env args world (mint_tokens env args world).1 response
mint_tokens-IsMinted_example = mint_tokens-IsMinted env args world response minted

abbrev silent : Env
silent = record env { host = record env.host { on_token_issued = some (λ i. false) } }

abbrev hook_threw : AuthError
hook_threw = server_error "onTokenIssued hook threw"

not_minted : (mint_tokens silent args world).0 ≡ err hook_threw
unfolding mint_tokens prepare issue
not_minted = refl

mint_tokens-err_example :
    ((mint_tokens silent args world).1.audit ≡ [])
    × (((mint_tokens silent args world).1 ≡ world) ⊎ (hook_threw ≡ id_token_failed))
mint_tokens-err_example = mint_tokens-err silent args world hook_threw not_minted

exchanged : (exchange_code env request world).0 ≡ ok response
unfolding exchange_code exchange_payload consume_code decrypted with_tenant request_check
    verify_client_credentials validate_pkce utf16_length timing_safe_equal_str encode s256_challenge
    grant_code subject_claim validate_subject_claim schema_for run_persist mint_tokens prepare issue
    save_refresh should_issue_id_token join
exchanged = refl

exchange_code-IsGranted_example :
    IsGranted env request world (exchange_code env request world).1 response
exchange_code-IsGranted_example =
    exchange_code-IsGranted env request platform-IsUtf8 world response exchanged

exchange_code_twice_example :
    (exchange_code (record env { now = 3000 }) request (exchange_code env request world).1).0
    ≡ err code_unknown
exchange_code_twice_example =
    exchange_code_twice env (record env { now = 3000 }) request request world refl
