-- ===== src/ClientAuth/Laws.antt =====
-- Who authenticates. About packages/openauth/src/domain/client-auth.ts.
use openauth.Prelude.{String, Bool, false, Option, none, some, ◌≡◌, ◌≢◌, ◌↔◌, refl, arith, eq_iff}
use openauth.Types.Tenant.{ClientConfig, ClientType, public, confidential}
use openauth.Crypto.{Platform, IsUtf8}
use openauth.Crypto.TimingSafe.{timing_safe_equal_str_iff}
use openauth.ClientAuth.{
  truthy, hash_client_secret, verify_client_credentials, verify_for, verify_secret,
}

-- What the credentials of a client are, without the comparison byte by byte: a public client has no
-- secret (the empty one is none), a confidential client one whose hash is registered.
abbrev pub IsAuthentic : Platform → ClientType → Option String → Type 0
IsAuthentic platform public presented = truthy presented ≡ false
IsAuthentic platform (confidential secret_hash pkce) presented =
    (s : String) × (presented ≡ some s) × (s ≢ "") × (hash_client_secret platform s ≡ secret_hash)

verify_secret_sound :
    (platform : Platform) (h : String) (presented : Option String) (pkce : Bool)
    → IsUtf8 platform
    → verify_secret platform h presented ≡ none
    → IsAuthentic platform (confidential h pkce) presented
unfolding verify_secret
verify_secret_sound platform h none pkce u e = cc
verify_secret_sound platform h (some s) pkce u e = (
  s,
  refl,
  ground (arith, eq_iff s ""),
  (timing_safe_equal_str_iff platform _ _ u).0 (ground (arith, eq_iff s "")),
)

verify_secret_complete :
    (platform : Platform) (h : String) (presented : Option String) (pkce : Bool)
    → IsUtf8 platform
    → IsAuthentic platform (confidential h pkce) presented
    → verify_secret platform h presented ≡ none
unfolding verify_secret
verify_secret_complete platform h none pkce u (s, e, ne, k) = cc
verify_secret_complete platform h (some t) pkce u (s, e, ne, k) =
    ground (
      arith,
      eq_iff t "",
      (timing_safe_equal_str_iff platform (hash_client_secret platform t) h u).1,
    )

-- Over an encoding that keeps the laws of UTF-8, credentials are accepted exactly when a public
-- client presents no secret, or a confidential client a non-empty one that hashes to the
-- registered value.
pub verify_client_credentials_iff :
    (platform : Platform) (client : ClientConfig) (presented : Option String)
    → IsUtf8 platform
    → (verify_client_credentials platform client presented ≡ none)
      ↔ IsAuthentic platform client.type presented
unfolding verify_client_credentials
verify_client_credentials_iff platform client presented u = by_type client.type
  where
    by_type :
        (t : ClientType)
        → (verify_for platform t presented ≡ none) ↔ IsAuthentic platform t presented
    by_type public = (λ e. ground arith, λ e. ground arith)
    by_type (confidential h pkce) = (
      verify_secret_sound platform h presented pkce u,
      verify_secret_complete platform h presented pkce u,
    )
