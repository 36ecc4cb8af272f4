-- ===== src/IdToken.antt =====
-- packages/openauth/src/domain/id-token.ts. A set of claims is a list of names and values in which
-- the later spread wins, as in an object literal.
pub mod Scoped
pub mod Built
use openauth.Prelude.{
  ℕ, ◌+◌, ◌*◌, ◌/◌, String, Bool, true, false, Option, none, some, List, [], ◌∷◌, ◌++◌, ◌==◌,
  if◌then◌else◌, includes, get_or_else,
}
use openauth.Types.Json.{Json, Items, nil, cons, Fields, end, field, str, num, arr, obj, get_field}
use openauth.Types.Token.{SubjectClaim, ClaimsRequest}
use openauth.Crypto.{Platform}

abbrev pub Mappings : Type 0
Mappings = List (String × List String)

-- `mappings[scope]`
unfoldable pub claims_of : String → Mappings → List String
claims_of scope [] = []
claims_of scope ((s, names) ∷ rest) = if s == scope then names else claims_of scope rest

abbrev pub scope_to_claims : Mappings
scope_to_claims =
    (
      "profile",
      "name" ∷ "given_name" ∷ "family_name" ∷ "middle_name" ∷ "nickname" ∷ "preferred_username"
          ∷ "profile" ∷ "picture" ∷ "website" ∷ "gender" ∷ "birthdate" ∷ "zoneinfo" ∷ "locale"
          ∷ "updated_at" ∷ [],
    )
    ∷ ("email", "email" ∷ "email_verified" ∷ [])
    ∷ ("phone", "phone_number" ∷ "phone_number_verified" ∷ [])
    ∷ ("address", "address" ∷ [])
    ∷ []

unfoldable pub derive_amr : String → Option Json
derive_amr kind =
    if kind == "password"
    then some (arr (cons (str "pwd") nil))
    else if kind == "code"
    then some (arr (cons (str "otp") nil))
    else if kind == "passkey"
    then some (arr (cons (str "hwk") nil))
    else none

unfoldable pub compute_at_hash : Platform → String → String
compute_at_hash platform access_token = platform.sha256_half_b64 access_token

-- `for (const c of list) granted.add(c)`: a `Set` keeps the first place of a name
unfoldable pub add_all : List String → List String → List String
add_all granted [] = granted
add_all granted (c ∷ cs) = add_all (if includes granted c then granted else granted ++ c ∷ []) cs

unfoldable pub grant_scopes : Mappings → List String → List String → List String
unfolding add_all claims_of
grant_scopes mappings granted [] = granted
grant_scopes mappings granted (scope ∷ scopes) =
    grant_scopes mappings (add_all granted (claims_of scope mappings)) scopes

-- the last loop of `pickScopedClaims`
pick : Fields → List String → List (String × Json)
pick props [] = []
pick props (key ∷ keys) = elim (get_field key props) [
  | none ↦ pick props keys
  | some v ↦ (key, v) ∷ pick props keys
]

-- In `{...customMappings, ...SCOPE_TO_CLAIMS}` the standard names win.
abbrev pub mappings_with : Mappings → Mappings
mappings_with custom = scope_to_claims ++ custom

pick_from : Json → List String → List (String × Json)
pick_from (obj props) names = pick props names
pick_from _ names = []

unfoldable pub pick_scoped_claims :
    SubjectClaim → List String → List String → Mappings → List (String × Json)
unfolding pick_from pick grant_scopes
pick_scoped_claims claim scopes extra custom =
    pick_from claim.properties (add_all (grant_scopes (mappings_with custom) [] scopes) extra)

pub record BuildIdTokenInput : Type 0 where
  pub issuer_url : String
  pub audience : String
  pub subject_id : String
  pub claim : SubjectClaim
  pub scopes : List String
  pub auth_time : ℕ
  pub app_nonce : Option String
  pub now : ℕ
  pub method_kind : String
  pub access_token : String
  pub claims_request : Option ClaimsRequest
  pub custom_scope_claims : Mappings

abbrev pub default_id_token_ttl_ms : ℕ
default_id_token_ttl_ms = 5 * 60 * 1000

-- A claim of the object literal: the last entry of a name is the one that stays.
unfoldable pub claim_of : String → List (String × Json) → Option Json
claim_of name [] = none
claim_of name ((k, v) ∷ rest) = elim (claim_of name rest) [
  | some later ↦ some later
  | none ↦ if k == name then some v else none
]

optional : String → Option Json → List (String × Json)
optional name none = []
optional name (some v) = (name, v) ∷ []

abbrev json_str : Option String → Option Json
json_str none = none
json_str (some s) = some (str s)

abbrev pub id_token_names : Option ClaimsRequest → List String
id_token_names none = []
id_token_names (some r) = r.id_token

required_claims : Platform → BuildIdTokenInput → List (String × Json)
required_claims platform input =
    ("iss", str input.issuer_url)
    ∷ ("sub", str input.subject_id)
    ∷ ("aud", str input.audience)
    ∷ ("exp", num ((input.now + default_id_token_ttl_ms) / 1000))
    ∷ ("iat", num (input.now / 1000))
    ∷ ("auth_time", num input.auth_time)
    ∷ ("at_hash", str (compute_at_hash platform input.access_token))
    ∷ []

unfoldable pub base_claims : Platform → BuildIdTokenInput → List (String × Json)
unfolding optional required_claims
base_claims platform input =
    required_claims platform input
    ++ (optional "nonce" (json_str input.app_nonce)
        ++ optional "amr" (derive_amr input.method_kind))

unfoldable pub build_id_token_claims : Platform → BuildIdTokenInput → List (String × Json)
build_id_token_claims platform input =
    base_claims platform input
    ++ pick_scoped_claims input.claim input.scopes (id_token_names input.claims_request)
        input.custom_scope_claims

unfoldable pub should_issue_id_token : List String → Bool
should_issue_id_token scopes = includes scopes "openid"
