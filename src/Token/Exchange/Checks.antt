-- ===== src/Token/Exchange/Checks.antt =====
-- What a request must have in common with the code that it presents. About
-- packages/openauth/src/domain/token.ts.
use openauth.Prelude.{
  ◌≤◌, String, false, not, ◌&&◌, Option, none, some, ◌≡◌, refl, arith, eq_iff, is_some,
  utf16_length,
}
use openauth.Types.Error.{ok}
use openauth.Types.Tenant.{ClientConfig}
use openauth.Types.Token.{CodePayload}
use openauth.ClientAuth.Laws.{IsAuthentic, verify_client_credentials_iff}
use openauth.Crypto.{Platform, IsUtf8}
use openauth.Pkce.{validate_pkce_iff, s256_challenge}
use openauth.World.{Env, World}
use openauth.Token.Exchange.{
  TokenAuthCodeRequest, request_check, pkce_check, verifier_check, dpop_check,
}

-- The verifier of a request against the challenge of the code, if there is one.
abbrev pub IsProven : Platform → Option String → Option String → Type 0
IsProven platform none verifier = Unit
IsProven platform (some challenge) verifier =
    (v : String) × (verifier ≡ some v)
    × (43 ≤ utf16_length v)
    × (utf16_length v ≤ 128)
    × (s256_challenge platform v ≡ challenge)

pub record IsEntitled (env : Env) (req : TokenAuthCodeRequest) (payload : CodePayload)
    (client : ClientConfig) : Type 0 where
  pub same_client : client.id ≡ req.client_id
  pub authentic : IsAuthentic env.platform client.type req.client_secret
  pub sender : (client.dpop_required && not (is_some req.dpop_jkt)) ≡ false
  pub same_redirect : payload.app_redirect_uri ≡ req.redirect_uri
  pub proven : IsProven env.platform payload.client_pkce req.code_verifier

module _ (env : Env) (utf8 : IsUtf8 env.platform) where
  pkce_check_sound :
      (challenge verifier : Option String)
      → pkce_check env challenge verifier ≡ none
      → IsProven env.platform challenge verifier
  unfolding pkce_check verifier_check
  pkce_check_sound none verifier h = tt
  pkce_check_sound (some c) none h = absurd (cc)
  pkce_check_sound (some c) (some v) h =
      let (low, high, same) =
        (validate_pkce_iff env.platform v c utf8).0 (ground (arith, eq_iff v "")) in
      (v, refl, low, high, same)

  -- The checks let a request through only if it names the code's client, authenticates as it, proves
  -- possession of a key where the client must, repeats the redirect URI, and knows the verifier of
  -- the code's challenge.
  pub request_check_sound :
      (req : TokenAuthCodeRequest) (payload : CodePayload) (client : ClientConfig) (w : World)
      → (request_check env req payload client w).0 ≡ ok tt
      → IsEntitled env req payload client
  unfolding request_check dpop_check
  request_check_sound req payload client w h = record {
    same_client = ground (arith, eq_iff client.id req.client_id);
    authentic =
        (verify_client_credentials_iff env.platform client req.client_secret utf8).0 (ground arith);
    sender = ground arith;
    same_redirect = ground (arith, eq_iff payload.app_redirect_uri req.redirect_uri);
    proven = pkce_check_sound payload.client_pkce req.code_verifier (ground arith);
  }
