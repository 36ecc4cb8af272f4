-- ===== src/Tests/Userinfos.antt =====
-- Witnesses for packages/openauth/src/domain/userinfo.ts: a token that is bound to a key, with a proof.
use openauth.Prelude.{String, none, some, true, refl, ◌≡◌}
use openauth.Types.Error.{ok}
use openauth.Types.Json.{get_field}
use openauth.Types.Token.{AccessTokenClaims}
use openauth.TokenStore.{record_dpop_jti}
use openauth.World.{Env}
use openauth.Dpop.{
  DpopJose, value, shaped, fresh_check, request_check, checked_payload, has_private_part,
  signed_claims, verified_claims, examine, recorded, verify_dpop_proof,
}
use openauth.Userinfo.{
  UserinfoInput, UserinfoDeps, dpop_scheme, presented_claims, token_binding_check, userinfo_claims,
  userinfo,
}
use openauth.Userinfo.Laws.{IsTold, userinfo-IsTold}
use openauth.Tests.Platforms.{platform}
use openauth.Tests.Fixtures.{env, world, jose, access_token_claims}
use openauth.Tests.Proofs.{proof_jose}

abbrev bound_claims : AccessTokenClaims
bound_claims = record access_token_claims { cnf = some "k1" }

abbrev bound_env : Env
bound_env = record env {
  jose = record jose { verify_access_token = λ t keys iss now. some bound_claims };
}

abbrev token_proof : DpopJose String
token_proof = record proof_jose {
  jwt_verify = λ p k alg. value (record {
    htm = some "GET";
    htu = some "https://id.example/userinfo";
    iat = some 160;
    jti = some "j2";
    ath = some (platform.sha256_b64 "access");
    nonce = none;
  });
}

abbrev asked : UserinfoInput
asked = record {
  access_token = "access";
  scheme = some dpop_scheme;
  dpop_proof = some "proof";
  htu = some "https://id.example/userinfo";
  htm = some "GET";
  now_sec = some 160;
}

abbrev deps : UserinfoDeps
deps = record { has_token_store = true; issuer_url = some "https://id.example" }

answered :
    (userinfo bound_env token_proof deps asked world).0
    ≡ ok (userinfo_claims bound_env token_proof deps asked bound_claims)
unfolding userinfo presented_claims token_binding_check verify_dpop_proof examine verified_claims
    signed_claims checked_payload request_check shaped fresh_check has_private_part get_field
    recorded record_dpop_jti
answered = refl

userinfo-IsTold_example :
    IsTold bound_env token_proof deps asked world
      (userinfo_claims bound_env token_proof deps asked bound_claims)
userinfo-IsTold_example =
    userinfo-IsTold bound_env token_proof deps asked world
      (userinfo_claims bound_env token_proof deps asked bound_claims) answered
