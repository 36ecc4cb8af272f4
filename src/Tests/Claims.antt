-- ===== src/Tests/Claims.antt =====
-- Witnesses for domain/subject.ts, id-token.ts and the subject ids of token.ts of packages/openauth/src.
use openauth.Prelude.{false, none, some, [], ◌∷◌, ◌≡◌, ◌≢◌, refl, arith}
use openauth.Types.Json.{end, field, num, obj}
use openauth.IdToken.{BuildIdTokenInput, claims_of}
use openauth.IdToken.Scoped.{granted_by}
use openauth.IdToken.Built.{lets_out}
use openauth.Token.SubjectId.{derive_subject_id, units}
use openauth.Token.SubjectId.Reordering.{object, swapped, derive_subject_id-Reordered}
use openauth.Tests.Platforms.{platform}
use openauth.Tests.Fixtures.{user}

abbrev input : BuildIdTokenInput
input = record {
  issuer_url = "https://id.example";
  audience = "spa";
  subject_id = "user:u1";
  claim = user;
  scopes = "openid" ∷ "email" ∷ [];
  auth_time = 1;
  app_nonce = some "n1";
  now = 2000;
  method_kind = "password";
  access_token = "access";
  claims_request = none;
  custom_scope_claims = [];
}

none_let_out :
    (lets_out input "iss" ≡ false)
    × (lets_out input "sub" ≡ false)
    × (lets_out input "aud" ≡ false)
    × (lets_out input "exp" ≡ false)
    × (lets_out input "auth_time" ≡ false)
    × (lets_out input "at_hash" ≡ false)
unfolding granted_by claims_of
none_let_out = (refl, refl, refl, refl, refl, refl)

different : units "a" ≢ units "b"
unfolding units
different h = ground arith

derive_subject_id-Reordered_example :
    derive_subject_id
      (λ j. "x")
      platform
      (record { type = "user"; properties = obj (field "a" (num 1) (field "b" (num 2) end)) })
      none
      none
    ≡ derive_subject_id
        (λ j. "x")
        platform
        (record { type = "user"; properties = obj (field "b" (num 2) (field "a" (num 1) end)) })
        none
        none
derive_subject_id-Reordered_example =
    derive_subject_id-Reordered (λ j. "x") platform "user"
      (obj (field "a" (num 1) (field "b" (num 2) end)))
      (obj (field "b" (num 2) (field "a" (num 1) end))) none none (object (swapped different))
