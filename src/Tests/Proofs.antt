-- ===== src/Tests/Proofs.antt =====
-- Witnesses for domain/dpop.ts of packages/openauth/src.
use openauth.Prelude.{◌≢◌, String, none, some, ◌≡◌, refl, arith, ◌==◌, if◌then◌else◌}
use openauth.Types.Error.{ok}
use openauth.Types.Json.{Json, obj, field, end, str, get_field}
use openauth.TokenStore.{new_store, record_dpop_jti}
use openauth.Dpop.{
  DpopJose, DpopProofPayload, VerifiedDpopProof, VerifyDpopProofInput, value, threw, shaped,
  fresh_check, request_check, checked_payload, has_private_part, signed_claims, verified_claims,
  examine, recorded, verify_dpop_proof,
}
use openauth.Dpop.Laws.{IsExamined, examine-IsExamined}
use openauth.Dpop.Replay.{verify_dpop_proof_twice}

abbrev key : Json
key = obj (field "kty" (str "EC") end)

-- one proof, "proof", made at second 160 for a token request
abbrev pub proof_jose : DpopJose String
proof_jose = record {
  decode_protected_header = λ p.
      if p == "proof"
      then value (record { typ = some "dpop+jwt"; alg = some "ES256"; jwk = some key })
      else threw "Invalid Token";
  import_jwk = λ j alg. value "key";
  jwt_verify = λ p k alg. value (record {
    htm = some "POST";
    htu = some "https://id.example/token";
    iat = some 160;
    jti = some "j1";
    ath = none;
    nonce = none;
  });
  calculate_jwk_thumbprint = λ j. value "k1";
}

abbrev input : VerifyDpopProofInput
input = record {
  proof_jwt = "proof";
  htu = "https://id.example/token";
  htm = "POST";
  now_sec = 100;
  iat_tolerance_sec = none;
  expected_ath = none;
}

abbrev payload : DpopProofPayload
payload = record {
  htu = "https://id.example/token";
  htm = "POST";
  iat = 160;
  jti = "j1";
  ath = none;
  nonce = none;
}

examined : examine proof_jose input ≡ ok (key, payload)
unfolding examine verified_claims signed_claims checked_payload request_check shaped fresh_check
    has_private_part get_field
examined = refl

examine-IsExamined_example : IsExamined proof_jose input key payload
examine-IsExamined_example = examine-IsExamined proof_jose input key payload examined

abbrev proof : VerifiedDpopProof
proof = record { jkt = "k1"; payload = payload }

accepted : (verify_dpop_proof proof_jose 100000 none input new_store).0 ≡ ok proof
unfolding verify_dpop_proof examine verified_claims signed_claims checked_payload request_check
    shaped fresh_check has_private_part get_field recorded record_dpop_jti
accepted = refl

verify_dpop_proof_twice_example :
    (verify_dpop_proof proof_jose 100001 none input
      (verify_dpop_proof proof_jose 100000 none input new_store).1).0
    ≢ ok proof
verify_dpop_proof_twice_example =
    verify_dpop_proof_twice proof_jose 100000 100001 none none input input new_store proof proof
      accepted refl (omega arith)
