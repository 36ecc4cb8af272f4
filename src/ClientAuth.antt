-- ===== src/ClientAuth.antt =====
-- packages/openauth/src/domain/client-auth.ts, and `hashClientSecret` of domain/token.ts.
pub mod Laws
use Prim.Native.Char.{Char, code}
use Prim.Native.String
use openauth.Prelude.{
  ℕ, suc, String, Bool, true, false, not, ◌&&◌, Option, none, some, List, [], ◌∷◌, ◌==◌, ◌+◌, eqb,
  leb, if◌then◌else◌, is_space, ◌≡◌, arith,
}
use openauth.Types.Error.{AuthError, Check, invalid_client}
use openauth.Types.Tenant.{ClientConfig, ClientType, public, confidential}
use openauth.Crypto.{Platform, timing_safe_equal_str}

-- `if (s)`: the empty text counts as missing
abbrev pub truthy : Option String → Bool
truthy none = false
truthy (some s) = not (s == "")

unfoldable pub hash_client_secret : Platform → String → String
hash_client_secret platform plain = platform.sha256_b64 plain

abbrev pub public_secret : AuthError
public_secret = invalid_client "public clients must not present a client_secret"

abbrev pub secret_required : AuthError
secret_required = invalid_client "confidential client requires client_secret"

abbrev pub secret_mismatch : AuthError
secret_mismatch = invalid_client "client_secret mismatch"

verify_secret : Platform → String → Option String → Check
verify_secret platform secret_hash none = some secret_required
verify_secret platform secret_hash (some secret) =
    if secret == ""
    then some secret_required
    else if timing_safe_equal_str platform (hash_client_secret platform secret) secret_hash
    then none
    else some secret_mismatch

verify_for : Platform → ClientType → Option String → Check
verify_for platform public presented = if truthy presented then some public_secret else none
verify_for platform (confidential secret_hash pkce) presented =
    verify_secret platform secret_hash presented

unfoldable pub verify_client_credentials : Platform → ClientConfig → Option String → Check
unfolding verify_for verify_secret
verify_client_credentials platform client presented = verify_for platform client.type presented

pub record ClientCredentials : Type 0 where
  pub client_id : String
  pub client_secret : Option String

-- `c` and `d` are one letter, in either case; `d` is the small one
abbrev is_letter : Char → ℕ → Bool
is_letter c d = if eqb (code c) d then true else eqb (code c + 32) d

skip_spaces : String → String
skip_spaces String.[] = ""
skip_spaces (String.◌∷◌ c s) =
    let rest = skip_spaces s in if is_space c then rest else String.◌∷◌ c s

-- The group of `/^Basic\s+(.+)$/i`. A header that ends in its spaces would give the group one
-- space, which decodes to no colon: it is no match here.
basic_match : String → Option String
basic_match
      (String.◌∷◌ b
        (String.◌∷◌ a (String.◌∷◌ s (String.◌∷◌ i (String.◌∷◌ c (String.◌∷◌ x rest)))))) =
    if is_letter b b'b'
      && is_letter a b'a'
      && is_letter s b's'
      && is_letter i b'i'
      && is_letter c b'c'
      && is_space x
      && not (skip_spaces rest == "")
    then some (skip_spaces rest)
    else none
basic_match _ = none

-- The parts of a text before and after its first colon.
unfoldable pub split_colon : String → Option (String × String)
split_colon String.[] = none
split_colon (String.◌∷◌ c s) =
    let rest = split_colon s in
    if eqb (code c) b':'
    then some ("", s)
    else elim rest [ none ↦ none | some (l, r) ↦ some (String.◌∷◌ c l, r) ]

module _ (platform : Platform) where
  decode_pair : String → String → Option ClientCredentials
  decode_pair id secret = elim (platform.decode_uri_component id) [
    | none ↦ none
    | some i ↦ elim (platform.decode_uri_component secret) [
      | none ↦ none
      | some s ↦ some (record { client_id = i; client_secret = some s })
    ]
  ]

  unfoldable pub parse_basic_auth : Option String → Option ClientCredentials
  unfolding basic_match skip_spaces split_colon decode_pair
  parse_basic_auth none = none
  parse_basic_auth (some header) = elim (basic_match header) [
    | none ↦ none
    | some encoded ↦ elim (platform.atob encoded) [
      | none ↦ none
      | some decoded ↦ elim (split_colon decoded) [
        | none ↦ none
        | some (id, secret) ↦ decode_pair id secret
      ]
    ]
  ]

  form_credentials : Option String → Option String → Option ClientCredentials
  form_credentials none secret = none
  form_credentials (some id) secret =
      if id == "" then none else some (record { client_id = id; client_secret = secret })

  unfoldable pub resolve_client_credentials :
      Option String → Option String → Option String → Option ClientCredentials
  unfolding form_credentials
  resolve_client_credentials header body_id body_secret = elim (parse_basic_auth header) [
    | some basic ↦ some basic
    | none ↦ form_credentials body_id body_secret
  ]
