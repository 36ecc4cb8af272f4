-- ===== src/Userinfo.antt =====
-- packages/openauth/src/domain/userinfo.ts: what the bearer of an access token is told of its subject.
-- The verification of the token and jose's part of a DPoP proof are parameters.
pub mod Laws
use openauth.Prelude.{
  ℕ, ◌/◌, String, Bool, true, false, not, ◌||◌, Option, none, some, List, [], ◌∷◌, ◌++◌, ◌==◌,
  if◌then◌else◌, get_or_else, words,
}
use openauth.Types.Error.{AuthError, Result, ok, err, or_fail, invalid_grant, invalid_dpop_proof}
use openauth.Types.Effect.{Exec, pure, fail, lift, require, ◌>>=◌, ◌>>◌}
use openauth.Types.Json.{Json, str}
use openauth.Types.Token.{AccessTokenClaims}
use openauth.ClientAuth.{truthy}
use openauth.IdToken.{pick_scoped_claims}
use openauth.TokenStore.{TokenStore}
use openauth.Dpop.{DpopJose, VerifyDpopProofInput, verify_dpop_proof}
use openauth.World.{Env, World, with_tokens}

pub data AuthScheme : Type 0 where
  bearer_scheme dpop_scheme : AuthScheme

pub record UserinfoInput : Type 0 where
  pub access_token : String
  pub scheme : Option AuthScheme
  pub dpop_proof : Option String
  pub htu : Option String
  pub htm : Option String
  pub now_sec : Option ℕ

-- the optional deps: whether there is a token store, and the issuer
pub record UserinfoDeps : Type 0 where
  pub has_token_store : Bool
  pub issuer_url : Option String

abbrev pub not_proved : String → AuthError
not_proved text = invalid_dpop_proof text none

abbrev pub is_dpop : Option AuthScheme → Bool
is_dpop (some dpop_scheme) = true
is_dpop (some bearer_scheme) = false
is_dpop none = false

-- `if (!input.htu || !input.htm || input.nowSec === undefined)`
abbrev pub whole_request : UserinfoInput → String → String → Option (VerifyDpopProofInput)
whole_request input proof ath = elim input.now_sec [
  | none ↦ none
  | some now_sec ↦
      if not (truthy input.htu) || not (truthy input.htm)
      then none
      else some (record {
        proof_jwt = proof;
        htu = get_or_else input.htu "";
        htm = get_or_else input.htm "";
        now_sec = now_sec;
        iat_tolerance_sec = none;
        expected_ath = some ath;
      })
]

-- `scope: claims.scope`, which JSON leaves out where it is undefined
abbrev pub scope_entry : Option String → List (String × Json)
scope_entry none = []
scope_entry (some scope) = ("scope", str scope) ∷ []

-- `claims.scope ? claims.scope.split(" ").filter(Boolean) : []`
abbrev pub scopes_of : Option String → List String
scopes_of none = []
scopes_of (some scope) = if scope == "" then [] else words scope

abbrev pub own_claims : AccessTokenClaims → List (String × Json)
own_claims c =
    ("sub", str c.sub)
    ∷ ("subject_type", str c.claim.type)
    ∷ ("properties", c.claim.properties)
    ∷ scope_entry c.scope

module _ {Key : Type 0} (env : Env) (jose : DpopJose Key) (deps : UserinfoDeps)
    (input : UserinfoInput) where
  -- `deps.issuerUrl ? { issuer: deps.issuerUrl } : {}`
  abbrev expected_issuer : Option String
  expected_issuer = if truthy deps.issuer_url then deps.issuer_url else none

  unfoldable pub presented_claims : Result AccessTokenClaims
  presented_claims = elim env.keys.signing_keys [
    | err e ↦ err e
    | ok keys ↦
        or_fail (invalid_grant "access token invalid or expired" none)
          (env.jose.verify_access_token input.access_token keys expected_issuer (env.now / 1000))
  ]

  proved_bound : String → VerifyDpopProofInput → Exec World (Unit {0})
  proved_bound bound request = do
    require deps.has_token_store
        (not_proved "userinfo dpop verification requires a token-store (jti replay protection)")
    proof ← with_tokens (verify_dpop_proof jose env.now none request)
    require (proof.jkt == bound) (not_proved "dpop proof key does not match access token cnf.jkt")

  unfoldable pub token_binding_check : Option String → Exec World (Unit {0})
  unfolding proved_bound
  token_binding_check none =
      require (not (is_dpop input.scheme))
        (invalid_grant "access token is not DPoP-bound; use Authorization: Bearer" none)
  token_binding_check (some bound) = do
    require (is_dpop input.scheme)
        (not_proved "access token is DPoP-bound; Authorization scheme must be \"DPoP\"")
    require (truthy input.dpop_proof)
        (not_proved "access token is DPoP-bound; request is missing a DPoP proof")
    request ← lift (
        or_fail (not_proved "userinfo dpop verification requires htu, htm, and nowSec") (
          whole_request input (get_or_else input.dpop_proof "")
            (env.platform.sha256_b64 input.access_token)))
    proved_bound bound request

  unfoldable pub userinfo_claims : AccessTokenClaims → List (String × Json)
  userinfo_claims c =
      own_claims c
      ++ pick_scoped_claims c.claim (scopes_of c.scope) (get_or_else c.uic [])
          env.host.custom_scope_claims

  unfoldable pub userinfo : Exec World (List (String × Json))
  unfolding userinfo_claims
  userinfo = do
    claims ← lift presented_claims
    token_binding_check claims.cnf
    pure (userinfo_claims claims)
