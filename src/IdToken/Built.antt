-- ===== src/IdToken/Built.antt =====
-- The claims of an id_token: the required ones, and what the subject's properties put over them.
-- About packages/openauth/src/domain/id-token.ts.
use openauth.Prelude.{
  ◌+◌, ◌/◌, String, Bool, true, false, ◌||◌, Option, none, some, List, [], ◌∷◌, ◌++◌, ◌==◌, ◌≡◌,
  refl, arith, if◌then◌else◌, includes, All,
}
use openauth.Types.Json.{Json, Fields, obj, str, num, get_field}
use openauth.Crypto.{Platform}
use openauth.IdToken.{
  BuildIdTokenInput, claim_of, base_claims, build_id_token_claims, pick_scoped_claims,
  mappings_with, id_token_names, compute_at_hash, default_id_token_ttl_ms, optional, derive_amr,
  required_claims, json_str,
}
use openauth.IdToken.Scoped.{granted_by, pick_scoped_claims_lem}

-- `x ?? y`
abbrev pub or_else : Option Json → Option Json → Option Json
or_else none y = y
or_else (some x) y = some x

pub claim_of-append :
    (xs ys : List (String × Json)) (s : String)
    → claim_of s (xs ++ ys) ≡ or_else (claim_of s ys) (claim_of s xs)
unfolding claim_of
claim_of-append [] ys s = ground arith
claim_of-append ((k, v) ∷ xs) ys s = ground (arith, claim_of-append xs ys s)

-- Whether a property of this name goes into the id_token.
abbrev pub lets_out : BuildIdTokenInput → String → Bool
lets_out input s =
    granted_by (mappings_with input.custom_scope_claims) input.scopes s
    || includes (id_token_names input.claims_request) s

-- The framework's own claims.
abbrev pub HasClaims : Platform → BuildIdTokenInput → (String → Option Json) → Type 0
HasClaims platform input c =
    (c "iss" ≡ some (str input.issuer_url))
    × (c "sub" ≡ some (str input.subject_id))
    × (c "aud" ≡ some (str input.audience))
    × (c "exp" ≡ some (num ((input.now + default_id_token_ttl_ms) / 1000)))
    × (c "auth_time" ≡ some (num input.auth_time))
    × (c "at_hash" ≡ some (str (compute_at_hash platform input.access_token)))

claim_of-optional :
    (name s : String) (o : Option Json) → (name == s) ≡ false → claim_of s (optional name o) ≡ none
unfolding claim_of optional
claim_of-optional name s none h = refl
claim_of-optional name s (some v) h = rw h

-- `nonce` and `amr` hide no other claim.
rest_hides_nothing :
    (s : String) (x y : Option Json)
    → ("nonce" == s) ≡ false
    → ("amr" == s) ≡ false
    → claim_of s (optional "nonce" x ++ optional "amr" y) ≡ none
rest_hides_nothing s x y h k =
    rw (claim_of-append, claim_of-optional "amr" s y k, claim_of-optional "nonce" s x h)

claim_of-base_claims :
    (platform : Platform) (input : BuildIdTokenInput) (s : String) (v : Json)
    → ("nonce" == s) ≡ false
    → ("amr" == s) ≡ false
    → claim_of s (required_claims platform input) ≡ some v
    → claim_of s (base_claims platform input) ≡ some v
claim_of-base_claims platform input s v h k e =
    unfold base_claims in
    ground (
      arith,
      claim_of-append (required_claims platform input)
          (optional "nonce" (json_str input.app_nonce)
            ++ optional "amr" (derive_amr input.method_kind))
          s,
      rest_hides_nothing s (json_str input.app_nonce) (derive_amr input.method_kind) h k,
      e,
    )

base_claims-HasClaims :
    (platform : Platform) (input : BuildIdTokenInput)
    → HasClaims platform input (λ s. claim_of s (base_claims platform input))
unfolding required_claims claim_of
base_claims-HasClaims platform input =
    let of = λ (s : String) (v : Json). claim_of-base_claims platform input s v in
    (
      of "iss" _ refl refl refl,
      of "sub" _ refl refl refl,
      of "aud" _ refl refl refl,
      of "exp" _ refl refl refl,
      of "auth_time" _ refl refl refl,
      of "at_hash" _ refl refl refl,
    )

module _ (platform : Platform) (input : BuildIdTokenInput) (props : Fields)
    (object : input.claim.properties ≡ obj props) where
  pub build_id_token_claims_lem :
      (s : String)
      → claim_of s (build_id_token_claims platform input)
        ≡ or_else
            (if lets_out input s then get_field s props else none)
            (claim_of s (base_claims platform input))
  unfolding build_id_token_claims
  build_id_token_claims_lem s = ground (
    arith,
    claim_of-append (base_claims platform input)
        (pick_scoped_claims input.claim input.scopes (id_token_names input.claims_request)
          input.custom_scope_claims)
        s,
    pick_scoped_claims_lem input.claim.type props input.scopes (id_token_names input.claims_request)
        input.custom_scope_claims s,
  )

  -- For a subject whose properties are an object, while nothing lets out a property named like
  -- iss, sub, aud, exp, auth_time or at_hash, the id_token has the grant's values for them.
  pub build_id_token_claims_framework :
      All
        (λ s. lets_out input s ≡ false)
        ("iss" ∷ "sub" ∷ "aud" ∷ "exp" ∷ "auth_time" ∷ "at_hash" ∷ [])
      → HasClaims platform input (λ s. claim_of s (build_id_token_claims platform input))
  build_id_token_claims_framework (i, (s, (a, (e, (t, (h, _)))))) =
      let base = base_claims-HasClaims platform input in
      (
        rw (build_id_token_claims_lem "iss", i) base.0,
        rw (build_id_token_claims_lem "sub", s) base.1,
        rw (build_id_token_claims_lem "aud", a) base.2,
        rw (build_id_token_claims_lem "exp", e) base.3,
        rw (build_id_token_claims_lem "auth_time", t) base.4,
        rw (build_id_token_claims_lem "at_hash", h) base.5,
      )

  -- For a subject whose properties are an object with a sub, an id_token for which the claims
  -- parameter names sub has that property in place of the framework's subject.
  pub build_id_token_claims-sub_replaced :
      (v : Json)
      → includes (id_token_names input.claims_request) "sub" ≡ true
      → get_field "sub" props ≡ some v
      → claim_of "sub" (build_id_token_claims platform input) ≡ some v
  build_id_token_claims-sub_replaced v h k = ground (arith, build_id_token_claims_lem "sub")
