-- ===== src/Dpop/Replay.antt =====
-- A proof is good for one request, as long as its `jti` is remembered. About
-- packages/openauth/src/domain/dpop.ts.
use openauth.Prelude.{
  ℕ, ◌+◌, ◌<◌, String, Option, none, some, ◌<>◌, ◌≡◌, ◌≢◌, refl, arith, eq_refl, get_or_else,
}
use openauth.Types.Error.{Result, ok, err, after_and_then, invalid_dpop_proof}
use openauth.Types.Json.{Json}
use openauth.Types.Effect.{continue}
use mathlib.Core.Path.{subst}
use openauth.TokenStore.{TokenStore, record_dpop_jti}
use openauth.Dpop.Laws.{examine-IsExamined, fresh_check_iff, checked_payload_sound}
use openauth.Dpop.{
  DpopJose, DpopProofPayload, VerifiedDpopProof, VerifyDpopProofInput, examine, recorded, or_threw,
  verify_dpop_proof, default_dpop_jti_ttl_ms, ProofHeader, ProofClaims, checked_payload,
  request_check, fresh_check, verified_claims, value,
}

module _ {Key : Type 0} (jose : DpopJose Key) where
  -- The lifetime that a call gives the `jti`.
  abbrev pub jti_ttl : Option ℕ → ℕ
  jti_ttl t = get_or_else t default_dpop_jti_ttl_ms

  recorded_twice :
      (now later : ℕ) (ttl ttl' : Option ℕ) (x y : Json × DpopProofPayload) (s : TokenStore)
      (v : VerifiedDpopProof)
      → (recorded jose now ttl x s).0 ≡ ok v
      → y.1.jti ≡ x.1.jti
      → later < now + jti_ttl ttl
      → (recorded jose later ttl' y (recorded jose now ttl x s).1).0
        ≡ err (invalid_dpop_proof ("dpop jti \"" <> y.1.jti <> "\" replayed") (some y.1.jti))
  unfolding recorded record_dpop_jti
  recorded_twice now later ttl ttl' (j, p) (k, q) s v h same soon = ground (arith, eq_refl p.jti)

  same_jti :
      (proof : String) (h h' : ProofHeader) (a a' : String) (j j' : Json) (k k' : Key)
      (c c' : ProofClaims) (i i' : String)
      → jose.decode_protected_header proof ≡ value h
      → jose.decode_protected_header proof ≡ value h'
      → h.alg ≡ some a
      → h'.alg ≡ some a'
      → h.jwk ≡ some j
      → h'.jwk ≡ some j'
      → jose.import_jwk j a ≡ value k
      → jose.import_jwk j' a' ≡ value k'
      → jose.jwt_verify proof k a ≡ value c
      → jose.jwt_verify proof k' a' ≡ value c'
      → c.jti ≡ some i
      → c'.jti ≡ some i'
      → i' ≡ i
  same_jti proof h h' a a' j j' k k' c c' i i' d d' e e' f f' m m' v v' t t' = cc

  examine-jti :
      (input again : VerifyDpopProofInput) (x y : Json × DpopProofPayload)
      → again.proof_jwt ≡ input.proof_jwt
      → examine jose input ≡ ok x
      → examine jose again ≡ ok y
      → y.1.jti ≡ x.1.jti
  examine-jti input again (j, p) (k, q) same h g =
      let e = examine-IsExamined jose input j p h in
      let f = examine-IsExamined jose again k q g in
      same_jti input.proof_jwt e.header f.header e.alg f.alg j k e.key f.key e.claims f.claims p.jti
        q.jti e.decoded (rw (← same) f.decoded) e.algorithm f.algorithm e.embedded f.embedded
        e.imported f.imported e.signed (rw (← same) f.signed) e.carried.0 f.carried.0

  -- After a proof was accepted, no request that presents the same proof is accepted while the
  -- lifetime of its jti lasts.
  pub verify_dpop_proof_twice :
      (now later : ℕ) (ttl ttl' : Option ℕ) (input again : VerifyDpopProofInput) (s : TokenStore)
      (v v' : VerifiedDpopProof)
      → (verify_dpop_proof jose now ttl input s).0 ≡ ok v
      → again.proof_jwt ≡ input.proof_jwt
      → later < now + jti_ttl ttl
      → (verify_dpop_proof jose later ttl' again (verify_dpop_proof jose now ttl input s).1).0
        ≢ ok v'
  unfolding verify_dpop_proof
  verify_dpop_proof_twice now later ttl ttl' input again s v v' first same soon second =
      twice (examine jose input) (examine jose again) refl refl first second
    where
      twice :
          (x y : Result (Json × DpopProofPayload))
          → examine jose input ≡ x
          → examine jose again ≡ y
          → (continue x (recorded jose now ttl) s).0 ≡ ok v
          → (continue y (recorded jose later ttl') (continue x (recorded jose now ttl) s).1).0
            ≢ ok v'
      twice (err e) y h g f k = cc
      twice (ok x) (err e) h g f k = cc
      twice (ok x) (ok y) h g f k =
          let e =
            recorded_twice now later ttl ttl' x y s v f (examine-jti input again x y same h g)
              soon in
          cc

-- The same request, two minutes later.
abbrev pub two_minutes_later : VerifyDpopProofInput → VerifyDpopProofInput
two_minutes_later input = record input { now_sec = input.now_sec + 120 }

fresh_check-later :
    (input : VerifyDpopProofInput) (iat : ℕ)
    → input.iat_tolerance_sec ≡ none
    → iat ≡ input.now_sec + 60
    → fresh_check (two_minutes_later input) iat ≡ none
fresh_check-later input iat t i =
    (fresh_check_iff (two_minutes_later input) iat).1 (rw t (omega arith), rw t (omega arith))

request_check-later :
    (input : VerifyDpopProofInput) (p : DpopProofPayload)
    → fresh_check (two_minutes_later input) p.iat ≡ none
    → request_check input p ≡ none
    → request_check (two_minutes_later input) p ≡ none
unfolding request_check
request_check-later input p fresh h = rw fresh (ground arith)

checked_payload-later :
    (input : VerifyDpopProofInput) (c : ProofClaims) (p : DpopProofPayload)
    → fresh_check (two_minutes_later input) p.iat ≡ none
    → checked_payload input c ≡ ok p
    → checked_payload (two_minutes_later input) c ≡ ok p
unfolding checked_payload
checked_payload-later input c p fresh h =
    let (shape, checks) = checked_payload_sound input c p h in
    rw (shape, request_check-later input p fresh checks) refl

module _ {Key : Type 0} (jose : DpopJose Key) where
  examine-later :
      (input : VerifyDpopProofInput) (jwk : Json) (p : DpopProofPayload)
      → fresh_check (two_minutes_later input) p.iat ≡ none
      → examine jose input ≡ ok (jwk, p)
      → examine jose (two_minutes_later input) ≡ ok (jwk, p)
  unfolding examine
  examine-later input jwk p fresh h =
      let P = examine jose (two_minutes_later input) ≡ ok (jwk, p) in
      after_and_then P
        (or_threw "dpop proof header is not a valid compact JWS"
          (jose.decode_protected_header input.proof_jwt))
        _ (jwk, p) h
        λ header decoded h1.
          after_and_then P (verified_claims jose input.proof_jwt header) _ (jwk, p) h1
            λ (j, claims) shown h2.
              after_and_then P (checked_payload input claims) _ (jwk, p) h2
                λ q fits h3.
                  let same_j : j ≡ jwk = ground arith in
                  let same_p : q ≡ p = ground arith in
                  rw
                    (
                      decoded,
                      shown,
                      checked_payload-later input claims p fresh (rw (← same_p) fits),
                      same_j,
                    )
                    refl

  recorded_again :
      (now : ℕ) (x : Json × DpopProofPayload) (s : TokenStore) (v : VerifiedDpopProof)
      → (recorded jose now none x s).0 ≡ ok v
      → (recorded jose (now + 120000) none x (recorded jose now none x s).1).0 ≡ ok v
  unfolding recorded record_dpop_jti
  recorded_again now (j, p) s v h = ground (arith, eq_refl p.jti)

  -- With the default tolerance and lifetime of a jti, a proof whose iat is 60 seconds ahead when
  -- it is accepted is accepted again in the same request 120 seconds later, if nothing else asks
  -- the store in between.
  pub verify_dpop_proof_again :
      (now : ℕ) (input : VerifyDpopProofInput) (jwk : Json) (p : DpopProofPayload) (s : TokenStore)
      (v : VerifiedDpopProof)
      → input.iat_tolerance_sec ≡ none
      → examine jose input ≡ ok (jwk, p)
      → p.iat ≡ input.now_sec + 60
      → (verify_dpop_proof jose now none input s).0 ≡ ok v
      → (verify_dpop_proof jose
          (now + 120000)
          none
          (two_minutes_later input)
          (verify_dpop_proof jose now none input s).1).0
        ≡ ok v
  unfolding verify_dpop_proof
  verify_dpop_proof_again now input jwk p s v t e i h =
      let later = examine-later input jwk p (fresh_check-later input p.iat t i) e in
      let first : (recorded jose now none (jwk, p) s).0 ≡ ok v =
        subst (λ r. (continue r (recorded jose now none) s).0 ≡ ok v) e h in
      rw (later, e) (recorded_again now (jwk, p) s v first)
