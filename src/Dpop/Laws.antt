-- ===== src/Dpop/Laws.antt =====
-- What a verified proof has shown. About packages/openauth/src/domain/dpop.ts.
use openauth.Prelude.{
  ℕ, ◌≤◌, ◌+◌, String, Bool, true, false, Option, none, some, ◌==◌, ◌≡◌, refl, arith, eq_iff,
  if◌then◌else◌, ltb, ◌⊎◌, inl, inr, ◌↔◌,
}
use openauth.Types.Error.{ok, AuthError, after_and_then}
use openauth.Types.Json.{Json}
use openauth.Dpop.{
  DpopJose, ProofHeader, ProofClaims, DpopProofPayload, VerifyDpopProofInput, value, threw, alg_of,
  object_of, public_jwk, has_private_part, or_threw, printed, skew, tolerance, checked_payload,
  shaped, same_check, fresh_check, request_check, verified_claims, signed_claims, examine,
  non_empty, ath_check, Attempt,
}

pub record IsExamined {Key : Type 0} (jose : DpopJose Key) (input : VerifyDpopProofInput)
    (jwk : Json) (p : DpopProofPayload) : Type 0 where
  pub header : ProofHeader
  pub claims : ProofClaims
  pub alg : String
  pub key : Key
  pub decoded : jose.decode_protected_header input.proof_jwt ≡ value header
  pub typed : header.typ ≡ some "dpop+jwt"
  pub algorithm : header.alg ≡ some alg
  pub asymmetric : (alg ≡ "ES256") ⊎ (alg ≡ "EdDSA")
  pub embedded : header.jwk ≡ some jwk
  pub public_key : has_private_part jwk ≡ false
  pub imported : jose.import_jwk jwk alg ≡ value key
  pub signed : jose.jwt_verify input.proof_jwt key alg ≡ value claims
  pub same_htm : p.htm ≡ input.htm
  pub same_htu : p.htu ≡ input.htu
  pub carried : (claims.jti ≡ some p.jti) × (claims.iat ≡ some p.iat)
  -- within the tolerance on either side
  pub not_late : input.now_sec ≤ p.iat + tolerance input.iat_tolerance_sec
  pub not_early : p.iat ≤ input.now_sec + tolerance input.iat_tolerance_sec
  pub same_ath :
      (input.expected_ath ≡ none)
      ⊎ ((a : String) × (input.expected_ath ≡ some a) × (claims.ath ≡ some a))

ath_check_sound :
    (expected ath : Option String)
    → ath_check expected ath ≡ none
    → (expected ≡ none) ⊎ ((a : String) × (expected ≡ some a) × (ath ≡ some a))
unfolding ath_check
ath_check_sound none ath h = inl refl
ath_check_sound (some e) none h = absurd (cc)
ath_check_sound (some e) (some a) h = inr (e, refl, ground (arith, eq_iff a e))

shaped_sound :
    (c : ProofClaims) (p : DpopProofPayload)
    → shaped c ≡ ok p
    → (c.jti ≡ some p.jti) × (c.iat ≡ some p.iat) × (c.ath ≡ p.ath)
unfolding shaped non_empty
shaped_sound c p h = (ground arith, ground arith, ground arith)

no_error_iff : (b : Bool) (e : AuthError) → ((if b then some e else none) ≡ none) ↔ (b ≡ false)
no_error_iff true e = (λ h. absurd (cc), λ h. absurd (cc))
no_error_iff false e = (λ h. refl, λ h. refl)

within_iff :
    (now_sec iat t : ℕ)
    → (ltb t (skew now_sec iat) ≡ false) ↔ ((now_sec ≤ iat + t) × (iat ≤ now_sec + t))
unfolding skew
within_iff now_sec iat t = (λ h. (ground arith, ground arith), λ (h, k). ground arith)

pub fresh_check_iff :
    (input : VerifyDpopProofInput) (iat : ℕ)
    → (fresh_check input iat ≡ none) ↔ (
        (input.now_sec ≤ iat + tolerance input.iat_tolerance_sec)
        × (iat ≤ input.now_sec + tolerance input.iat_tolerance_sec))
unfolding fresh_check
fresh_check_iff input iat =
    let late = ltb (tolerance input.iat_tolerance_sec) (skew input.now_sec iat) in
    let test = no_error_iff late _ in
    let range = within_iff input.now_sec iat (tolerance input.iat_tolerance_sec) in
    (λ h. range.0 (test.0 h), λ h. test.1 (range.1 h))

request_check_sound :
    (input : VerifyDpopProofInput) (p : DpopProofPayload)
    → request_check input p ≡ none
    → (p.htm ≡ input.htm)
      × (p.htu ≡ input.htu)
      × (fresh_check input p.iat ≡ none)
      × (ath_check input.expected_ath p.ath ≡ none)
unfolding request_check same_check
request_check_sound input p h = (
  ground (arith, eq_iff p.htm input.htm),
  ground (arith, eq_iff p.htu input.htu),
  ground arith,
  ground arith,
)

pub checked_payload_sound :
    (input : VerifyDpopProofInput) (c : ProofClaims) (p : DpopProofPayload)
    → checked_payload input c ≡ ok p
    → (shaped c ≡ ok p) × (request_check input p ≡ none)
unfolding checked_payload
checked_payload_sound input c p h = (ground arith, ground arith)

alg_of_sound :
    (o : Option String) (a : String)
    → alg_of o ≡ ok a
    → (o ≡ some a) × ((a ≡ "ES256") ⊎ (a ≡ "EdDSA"))
unfolding alg_of
alg_of_sound none a h = absurd (cc)
alg_of_sound (some b) a h = (ground arith, ground (arith, eq_iff b "ES256", eq_iff b "EdDSA"))

or_threw_sound :
    {A : Type 0} (text : String) (t : Attempt A) (a : A) → or_threw text t ≡ ok a → t ≡ value a
unfolding or_threw
or_threw_sound text (threw e) a h = absurd (cc)
or_threw_sound text (value b) a h = ground arith

public_jwk_sound :
    (o : Option Json) (j : Json) → public_jwk o ≡ ok j → (o ≡ some j) × (has_private_part j ≡ false)
unfolding public_jwk object_of
public_jwk_sound o j h = (ground arith, ground arith)

printed_sound : (o : Option String) → (printed o == "dpop+jwt") ≡ true → o ≡ some "dpop+jwt"
printed_sound none h = absurd (cc)
printed_sound (some s) h = ground (arith, eq_iff s "dpop+jwt")

module _ {Key : Type 0} (jose : DpopJose Key) where
  verified_claims_sound :
      (proof : String) (header : ProofHeader) (c : Json × ProofClaims)
      → verified_claims jose proof header ≡ ok c
      → (header.typ ≡ some "dpop+jwt") × (signed_claims jose proof header ≡ ok c)
  unfolding verified_claims
  verified_claims_sound proof header c h = (printed_sound header.typ (ground arith), ground arith)

  -- A DPoP proof that passes up to the replay gate has the right header type, one of the two
  -- asymmetric algorithms, an embedded public key under which its signature verifies, the
  -- request's method and address, an iat within the tolerance on either side, and the expected
  -- token hash where one is expected.
  pub examine-IsExamined :
      (input : VerifyDpopProofInput) (jwk : Json) (p : DpopProofPayload)
      → examine jose input ≡ ok (jwk, p)
      → IsExamined jose input jwk p
  unfolding examine signed_claims
  examine-IsExamined input jwk p h =
      let P = IsExamined jose input jwk p in
      after_and_then P
        (or_threw "dpop proof header is not a valid compact JWS"
          (jose.decode_protected_header input.proof_jwt))
        _ (jwk, p) h
        λ header decoded h1.
          after_and_then P (verified_claims jose input.proof_jwt header) _ (jwk, p) h1
            λ (jwk', claims) shown h2.
              after_and_then P (checked_payload input claims) _ (jwk, p) h2
                λ p' fits h3.
                  let (typed, s) =
                    verified_claims_sound input.proof_jwt header (jwk', claims) shown in
                  after_and_then P (alg_of header.alg) _ (jwk', claims) s
                    λ alg asymmetric s1.
                      after_and_then P (public_jwk header.jwk) _ (jwk', claims) s1
                        λ k embedded s2.
                          after_and_then P
                            (or_threw "dpop proof JWK import failed" (jose.import_jwk k alg)) _
                            (jwk', claims) s2
                            λ key imported s3.
                              after_and_then P
                                (or_threw "dpop proof signature verification failed"
                                  (jose.jwt_verify input.proof_jwt key alg))
                                _ (jwk', claims) s3
                                λ c signed s4.
                                  let same_k : jwk ≡ k = ground arith in
                                  let same_c : claims ≡ c = ground arith in
                                  let same_p : p ≡ p' = ground arith in
                                  let (shape, checks) =
                                    checked_payload_sound input claims p (rw same_p fits) in
                                  let (jti, iat, ath) = shaped_sound claims p shape in
                                  let (htm, htu, fresh, bound) =
                                    request_check_sound input p checks in
                                  let (late, early) = (fresh_check_iff input p.iat).0 fresh in
                                  let (chosen, either) = alg_of_sound header.alg alg asymmetric in
                                  let (found, public) = public_jwk_sound header.jwk k embedded in
                                  record {
                                    header = header;
                                    claims = claims;
                                    alg = alg;
                                    key = key;
                                    decoded = or_threw_sound _ _ header decoded;
                                    typed = typed;
                                    algorithm = chosen;
                                    asymmetric = either;
                                    embedded = rw same_k found;
                                    public_key = rw same_k public;
                                    imported = rw same_k (or_threw_sound _ _ key imported);
                                    signed = rw same_c (or_threw_sound _ _ c signed);
                                    same_htm = htm;
                                    same_htu = htu;
                                    carried = (jti, iat);
                                    not_late = late;
                                    not_early = early;
                                    same_ath =
                                        ath_check_sound input.expected_ath claims.ath
                                          (rw ath bound);
                                  }
