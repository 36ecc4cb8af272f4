-- ===== src/Dpop.antt =====
-- packages/openauth/src/domain/dpop.ts, the verification of DPoP proofs. What jose decodes, imports,
-- verifies and hashes is a parameter. Times are natural numbers: a proof whose `iat` is negative or
-- no integer is not modelled.
pub mod Laws
pub mod Replay
use openauth.Prelude.{
  ℕ, suc, zero, ◌+◌, ◌*◌, ◌-◌, ◌/◌, ◌%◌, String, Bool, true, false, not, ◌||◌, Option, none, some,
  ◌==◌, ◌<>◌, ltb, eqb, if◌then◌else◌, get_or_else,
}
use openauth.Types.Error.{AuthError, Result, ok, err, and_then, Check, invalid_dpop_proof}
use openauth.Types.Effect.{Exec, pure, fail, lift, attempt, require, check, ◌>>=◌, ◌>>◌}
use openauth.Types.Json.{Json, null, bool, num, str, arr, obj, get_field}
use openauth.TokenStore.{TokenStore, record_dpop_jti}

pub data Attempt {ℓ} (A : Type ℓ) : Type ℓ where
  -- the text that `stringifyError` makes of what was thrown
  threw : String → Attempt A
  value : A → Attempt A

-- The decoded header, and the payload of a proof, as far as they are of the expected types;
-- `none` stands for a member that is missing or of another type.
pub record ProofHeader : Type 0 where
  pub typ : Option String
  pub alg : Option String
  pub jwk : Option Json

pub record ProofClaims : Type 0 where
  pub htm : Option String
  pub htu : Option String
  pub iat : Option ℕ
  pub jti : Option String
  pub ath : Option String
  pub nonce : Option String

pub record DpopJose (Key : Type 0) : Type 1 where
  pub decode_protected_header : String → Attempt ProofHeader
  pub import_jwk : Json → String → Attempt Key
  pub jwt_verify : String → Key → String → Attempt ProofClaims
  pub calculate_jwk_thumbprint : Json → Attempt String

abbrev pub default_dpop_iat_tolerance_sec : ℕ
default_dpop_iat_tolerance_sec = 60

abbrev pub default_dpop_jti_ttl_ms : ℕ
default_dpop_jti_ttl_ms = 2 * default_dpop_iat_tolerance_sec * 1000

pub record DpopProofPayload : Type 0 where
  pub htu : String
  pub htm : String
  pub iat : ℕ
  pub jti : String
  pub ath : Option String
  pub nonce : Option String

pub record VerifiedDpopProof : Type 0 where
  pub jkt : String
  pub payload : DpopProofPayload

pub record VerifyDpopProofInput : Type 0 where
  pub proof_jwt : String
  pub htu : String
  pub htm : String
  pub now_sec : ℕ
  pub iat_tolerance_sec : Option ℕ
  pub expected_ath : Option String

abbrev pub bad : String → AuthError
bad text = invalid_dpop_proof text none

-- `String(x)` of a member
abbrev pub printed : Option String → String
printed none = "undefined"
printed (some s) = s

-- one digit of a number below ten
digit : ℕ → String
digit d =
    if eqb d 0
    then "0"
    else if eqb d 1
    then "1"
    else if eqb d 2
    then "2"
    else if eqb d 3
    then "3"
    else if eqb d 4
    then "4"
    else if eqb d 5
    then "5"
    else if eqb d 6
    then "6"
    else if eqb d 7
    then "7"
    else if eqb d 8
    then "8"
    else "9"

decimal_upto : ℕ → ℕ → String
unfolding digit
decimal_upto zero n = ""
decimal_upto (suc fuel) n =
    let rest = decimal_upto fuel (n / 10) in if ltb n 10 then digit n else rest <> digit (n % 10)

-- A number in a template string; 20 digits are more than a safe integer has.
unfoldable pub decimal : ℕ → String
unfolding decimal_upto
decimal n = decimal_upto 20 n

-- an object that is not null, in the sense of `typeof`
object_of : Option Json → Option Json
object_of (some (obj fields)) = some (obj fields)
object_of (some (arr items)) = some (arr items)
object_of _ = none

-- `"d" in jwk`
unfoldable pub has_private_part : Json → Bool
has_private_part (obj fields) = elim (get_field "d" fields) [ none ↦ false | some d ↦ true ]
has_private_part _ = false

public_jwk : Option Json → Result Json
unfolding object_of has_private_part
public_jwk o = elim (object_of o) [
  | none ↦ err (bad "dpop proof header.jwk missing or not an object")
  | some jwk ↦
      if has_private_part jwk
      then err (bad "dpop proof header.jwk must be a public key (private material present)")
      else ok jwk
]

alg_of : Option String → Result String
alg_of none = err (bad "dpop proof alg \"undefined\" not in {ES256, EdDSA}")
alg_of (some a) =
    if a == "ES256" || a == "EdDSA"
    then ok a
    else err (bad ("dpop proof alg \"" <> a <> "\" not in {ES256, EdDSA}"))

or_threw : {A : Type 0} → String → Attempt A → Result A
or_threw text (threw e) = err (bad (text <> ": " <> e))
or_threw text (value a) = ok a

unfoldable pub skew : ℕ → ℕ → ℕ
skew now_sec iat = (now_sec - iat) + (iat - now_sec)

abbrev pub tolerance : Option ℕ → ℕ
tolerance t = get_or_else t default_dpop_iat_tolerance_sec

non_empty : Option String → Option String
non_empty none = none
non_empty (some s) = if s == "" then none else some s

-- `canonicalHtu` parses with the platform's `URL`, and is that call with its two resets.
-- `computeAth` is the platform's hash.

ath_check : Option String → Option String → Check
ath_check none ath = none
ath_check (some expected) none = some (bad "dpop ath does not match SHA-256 of the access token")
ath_check (some expected) (some ath) =
    if ath == expected
    then none
    else some (bad "dpop ath does not match SHA-256 of the access token")

-- Step 3: the shape of the payload.
unfoldable pub shaped : ProofClaims → Result DpopProofPayload
unfolding non_empty
shaped c = elim c.htm [
  | none ↦ err (bad "dpop proof missing string htm")
  | some htm ↦ elim c.htu [
    | none ↦ err (bad "dpop proof missing string htu")
    | some htu ↦ elim c.iat [
      | none ↦ err (bad "dpop proof missing numeric iat")
      | some iat ↦ elim (non_empty c.jti) [
        | none ↦ err (bad "dpop proof missing non-empty string jti")
        | some jti ↦
            ok (record { htu = htu; htm = htm; iat = iat; jti = jti; ath = c.ath; nonce = c.nonce })
      ]
    ]
  ]
]

same_check : String → String → String → String → Check
same_check actual expected label other =
    if actual == expected
    then none
    else some (
        bad (
          "dpop " <> label <> " \"" <> actual <> "\" does not match request " <> other <> " \""
          <> expected <> "\""))

skew_error : ℕ → ℕ → AuthError
unfolding decimal
skew_error by allowed =
    bad ("dpop iat skew " <> decimal by <> "s exceeds tolerance " <> decimal allowed <> "s")

unfoldable pub fresh_check : VerifyDpopProofInput → ℕ → Check
unfolding skew skew_error
fresh_check input iat =
    if ltb (tolerance input.iat_tolerance_sec) (skew input.now_sec iat)
    then some (skew_error (skew input.now_sec iat) (tolerance input.iat_tolerance_sec))
    else none

abbrev first_error : Check → Check → Check
first_error (some e) next = some e
first_error none next = next

-- Steps 4 to 6: method and address, freshness, access token.
unfoldable pub request_check : VerifyDpopProofInput → DpopProofPayload → Check
unfolding same_check fresh_check ath_check
request_check input p = first_error (same_check p.htm input.htm "htm" "method") (
    first_error (same_check p.htu input.htu "htu" "uri")
      (first_error (fresh_check input p.iat) (ath_check input.expected_ath p.ath)))

abbrev or_error : {A : Type 0} → Check → A → Result A
or_error (some e) a = err e
or_error none a = ok a

unfoldable pub checked_payload : VerifyDpopProofInput → ProofClaims → Result DpopProofPayload
checked_payload input c = and_then (shaped c) λ p. or_error (request_check input p) p

module _ {Key : Type 0} (jose : DpopJose Key) where
  -- The key that the header embeds, and the signature under that key.
  unfoldable pub signed_claims : String → ProofHeader → Result (Json × ProofClaims)
  unfolding alg_of public_jwk or_threw
  signed_claims proof header = and_then (alg_of header.alg) λ alg.
      and_then (public_jwk header.jwk) λ jwk.
        and_then (or_threw "dpop proof JWK import failed" (jose.import_jwk jwk alg)) λ key.
          and_then
            (or_threw "dpop proof signature verification failed" (jose.jwt_verify proof key alg))
            λ claims. ok (jwk, claims)

  -- Steps 1 and 2: the header, then the above.
  unfoldable pub verified_claims : String → ProofHeader → Result (Json × ProofClaims)
  verified_claims proof header =
      if not (printed header.typ == "dpop+jwt")
      then err
          (bad ("dpop proof header.typ must be \"dpop+jwt\", got \"" <> printed header.typ <> "\""))
      else signed_claims proof header

  -- Everything before the store is asked.
  unfoldable pub examine : VerifyDpopProofInput → Result (Json × DpopProofPayload)
  unfolding or_threw
  examine input =
      and_then
        (or_threw "dpop proof header is not a valid compact JWS"
          (jose.decode_protected_header input.proof_jwt))
        λ header.
          and_then (verified_claims input.proof_jwt header)
            λ (jwk, claims). and_then (checked_payload input claims) λ payload. ok (jwk, payload)

  -- Steps 7 and 8: the replay gate of the store, then the thumbprint.
  unfoldable pub recorded :
      ℕ → Option ℕ → Json × DpopProofPayload → Exec TokenStore VerifiedDpopProof
  unfolding or_threw
  recorded now jti_ttl_ms (jwk, payload) = do
    seen ←
        attempt (record_dpop_jti now payload.jti (get_or_else jti_ttl_ms default_dpop_jti_ttl_ms))
    elim seen [
      | err e ↦
          fail
            (invalid_dpop_proof ("dpop jti \"" <> payload.jti <> "\" replayed") (some payload.jti))
      | ok _ ↦ do
        jkt ←
            lift (
              or_threw "dpop jkt thumbprint computation failed" (jose.calculate_jwk_thumbprint jwk))
        pure (record { jkt = jkt; payload = payload })
    ]

  -- `now` is what the store's clock reads. The store has `recordDpopJti`, as the in-memory one does.
  unfoldable pub verify_dpop_proof :
      ℕ → Option ℕ → VerifyDpopProofInput → Exec TokenStore VerifiedDpopProof
  verify_dpop_proof now jti_ttl_ms input = do
    examined ← lift (examine input)
    recorded now jti_ttl_ms examined
