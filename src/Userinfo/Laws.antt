-- ===== src/Userinfo/Laws.antt =====
-- Who is told what of a subject. About packages/openauth/src/domain/userinfo.ts.
use openauth.Prelude.{
  ◌/◌, String, true, false, ◌||◌, Option, none, some, List, [], ◌∷◌, ◌==◌, words, Option-cases, ◌≡◌,
  refl, arith, eq_iff, ap, ◌∙◌, includes, if◌then◌else◌, get_or_else, inl, inr,
}
use openauth.Types.Error.{ok, invalid_grant, or_fail, or_fail-eq-ok, Result-cases}
use openauth.Types.Effect.{lift, bind-eq-ok, after_require}
use openauth.Types.Json.{Json, Fields, obj, str, get_field}
use openauth.Types.Token.{AccessTokenClaims}
use openauth.IdToken.{claim_of, pick_scoped_claims, mappings_with}
use openauth.IdToken.Scoped.{granted_by, pick_scoped_claims_lem}
use openauth.IdToken.Built.{or_else, claim_of-append}
use openauth.Dpop.{DpopJose, VerifyDpopProofInput, VerifiedDpopProof, verify_dpop_proof}
use openauth.World.{Env, World, SigningKey, with_tokens}
use openauth.Userinfo.{
  UserinfoInput, UserinfoDeps, is_dpop, whole_request, scopes_of, own_claims, presented_claims,
  proved_bound, token_binding_check, userinfo_claims, userinfo, truthy,
}

module _ {Key : Type 0} (env : Env) (jose : DpopJose Key) (deps : UserinfoDeps)
    (input : UserinfoInput) where
  -- A proof of this request and for this token, under the key with the thumbprint `jkt`.
  pub record IsProved (jkt : String) (w : World) : Type 0 where
    pub request : VerifyDpopProofInput
    pub proof : VerifiedDpopProof
    pub asked : is_dpop input.scheme ≡ true
    pub sent : input.dpop_proof ≡ some request.proof_jwt
    pub same_htu : input.htu ≡ some request.htu
    pub same_htm : input.htm ≡ some request.htm
    pub for_token : request.expected_ath ≡ some (env.platform.sha256_b64 input.access_token)
    pub accepted : (verify_dpop_proof jose env.now none request w.tokens).0 ≡ ok proof
    pub same_key : proof.jkt ≡ jkt

  -- The binding of the token that was asked with, over the state before.
  pub IsBound : Option String → World → Type 0
  IsBound none w = is_dpop input.scheme ≡ false
  IsBound (some jkt) w = IsProved jkt w

  whole_request_sound :
      (proof ath : String) (htu htm : Option String) (request : VerifyDpopProofInput)
      → input.htu ≡ htu
      → input.htm ≡ htm
      → whole_request input proof ath ≡ some request
      → (request.proof_jwt ≡ proof)
        × (htu ≡ some request.htu)
        × (htm ≡ some request.htm)
        × (request.expected_ath ≡ some ath)
  whole_request_sound proof ath htu htm request e f h =
      (ground arith, ground arith, ground arith, ground arith)

  proof_present :
      (o : Option String) (text : String)
      → truthy o ≡ true
      → text ≡ get_or_else o ""
      → o ≡ some text
  proof_present none text h k = absurd (cc)
  proof_present (some t) text h k = ground arith

  token_binding_check_sound :
      (bound : Option String) (w : World)
      → (token_binding_check env jose deps input bound w).0 ≡ ok tt
      → IsBound bound w
  unfolding token_binding_check proved_bound IsBound
  token_binding_check_sound none w h = ground arith
  token_binding_check_sound (some jkt) w h =
      let (asked, h1) = after_require (is_dpop input.scheme) _ _ w tt h in
      let (has_proof, h2) = after_require (truthy input.dpop_proof) _ _ w tt h1 in
      let (request, is_whole, h3) =
        bind-eq-ok
          (lift (
            or_fail _ (
              whole_request input (get_or_else input.dpop_proof "")
                (env.platform.sha256_b64 input.access_token))))
          _ w tt h2 in
      let (has_store, h4) = after_require deps.has_token_store _ _ w tt h3 in
      let (proof, accepted, h5) =
        bind-eq-ok (with_tokens (verify_dpop_proof jose env.now none request)) _ w tt h4 in
      let (sent, htu, htm, ath) =
        whole_request_sound _ _ input.htu input.htm request refl refl
          (or_fail-eq-ok _ _ request is_whole) in
      record {
        request = request;
        proof = proof;
        asked = asked;
        sent = proof_present input.dpop_proof request.proof_jwt has_proof sent;
        same_htu = htu;
        same_htm = htm;
        for_token = ath;
        accepted = accepted;
        same_key = ground (arith, eq_iff proof.jkt jkt);
      }

  -- The scopes of a token.
  abbrev scope_list : Option String → List String
  scope_list scope = elim scope [ none ↦ [] | some s ↦ if s == "" then [] else words s ]

  -- What a token says itself under a name.
  abbrev said : AccessTokenClaims → String → Option Json
  said c s = claim_of s (
      ("sub", str c.sub)
      ∷ ("subject_type", str c.claim.type)
      ∷ ("properties", c.claim.properties)
      ∷ (elim c.scope [ none ↦ [] | some scope ↦ ("scope", str scope) ∷ [] ]))

  -- The entry of a name in the answer for a subject whose properties are an object: the property,
  -- where it is let out and there is one, and what the token says otherwise.
  abbrev pub told : AccessTokenClaims → Fields → String → Option Json
  told c props s =
      or_else
        (if granted_by (mappings_with env.host.custom_scope_claims) (scope_list c.scope) s
            || includes (get_or_else c.uic []) s
          then get_field s props
          else none)
        (said c s)

  own_claims_lem : (c : AccessTokenClaims) (s : String) → claim_of s (own_claims c) ≡ said c s
  own_claims_lem c s = elim (Option-cases c.scope) [
    | inl e ↦ rw e refl
    | inr (scope, e) ↦ rw e refl
  ]

  scopes_of_lem : (o : Option String) → scopes_of o ≡ scope_list o
  scopes_of_lem none = refl
  scopes_of_lem (some s) = refl

  pub record IsTold (w : World) (out : List (String × Json)) : Type 0 where
    pub keys : List SigningKey
    pub claims : AccessTokenClaims
    pub trusted : env.keys.signing_keys ≡ ok keys
    pub verified :
        env.jose.verify_access_token input.access_token keys
          (if truthy deps.issuer_url then deps.issuer_url else none)
          (env.now / 1000)
        ≡ some claims
    pub bound : IsBound claims.cnf w
    pub entries :
        (props : Fields) (s : String)
        → claims.claim.properties ≡ obj props
        → claim_of s out ≡ told claims props s

  userinfo_claims_lem :
      (c : AccessTokenClaims) (props : Fields) (s : String)
      → c.claim.properties ≡ obj props
      → claim_of s (userinfo_claims env jose deps input c) ≡ told c props s
  unfolding userinfo_claims
  userinfo_claims_lem c props s h =
      let scopes = scopes_of c.scope in
      let extra = get_or_else c.uic [] in
      let custom = env.host.custom_scope_claims in
      let object : c.claim ≡ record { type = c.claim.type; properties = obj props } =
        ap (λ p. record { type = c.claim.type; properties = p }) h in
      let picked = pick_scoped_claims_lem c.claim.type props scopes extra custom s in
      claim_of-append (own_claims c) (pick_scoped_claims c.claim scopes extra custom) s
      ∙ ap (λ x. or_else x (claim_of s (own_claims c)))
          (ap (λ k. claim_of s (pick_scoped_claims k scopes extra custom)) object
            ∙ picked
            ∙ ap
                (λ (l : List String).
                  if granted_by (mappings_with custom) l s || includes extra s
                  then get_field s props
                  else none)
                (scopes_of_lem c.scope))
      ∙ ap
          (or_else (
            if granted_by (mappings_with custom) (scope_list c.scope) s || includes extra s
            then get_field s props
            else none))
          (own_claims_lem c s)

  presented_claims_sound :
      (c : AccessTokenClaims)
      → presented_claims env jose deps input ≡ ok c
      → (keys : List SigningKey) × (env.keys.signing_keys ≡ ok keys)
        × (env.jose.verify_access_token input.access_token keys
              (if truthy deps.issuer_url then deps.issuer_url else none)
              (env.now / 1000)
            ≡ some c)
  unfolding presented_claims
  presented_claims_sound c h = elim (Result-cases env.keys.signing_keys) [
    | inl (keys, e) ↦ (
      keys,
      e,
      or_fail-eq-ok (invalid_grant "access token invalid or expired" none)
          (env.jose.verify_access_token input.access_token keys
            (if truthy deps.issuer_url then deps.issuer_url else none) (env.now / 1000))
          c (ground arith),
    )
    | inr (x, e) ↦ absurd (ground arith)
  ]

  -- When userinfo answers, the access token verified under the signing keys and the issuer; where
  -- it is bound to a key the scheme was DPoP and a proof of this request, for this token and under
  -- that key was accepted, and where it is not the scheme was not DPoP; and for a subject whose
  -- properties are an object, each entry is the property of its name where a scope of the token
  -- grants it or the token names it, and what the token says otherwise.
  pub userinfo-IsTold :
      (w : World) (out : List (String × Json))
      → (userinfo env jose deps input w).0 ≡ ok out
      → IsTold w out
  unfolding userinfo
  userinfo-IsTold w out h =
      let (claims, presented, h1) =
        bind-eq-ok (lift (presented_claims env jose deps input)) _ w out h in
      let (u, checked, h2) =
        bind-eq-ok (token_binding_check env jose deps input claims.cnf) _ w out h1 in
      let (keys, trusted, verified) = presented_claims_sound claims presented in
      let same : userinfo_claims env jose deps input claims ≡ out = ground arith in
      record {
        keys = keys;
        claims = claims;
        trusted = trusted;
        verified = verified;
        bound = token_binding_check_sound claims.cnf w checked;
        entries = λ props s e. rw (← same) (userinfo_claims_lem claims props s e);
      }
