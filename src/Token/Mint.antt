-- ===== src/Token/Mint.antt =====
-- `mintTokens` of packages/openauth/src/domain/token.ts
pub mod Laws
pub mod Frame
use openauth.Prelude.{
  ℕ, ◌+◌, ◌*◌, ◌/◌, String, Bool, true, false, Option, none, some, List, [], ◌∷◌, if◌then◌else◌,
  is_some, get_or_else, is_blank, join, take_chars,
}
use openauth.Types.Error.{AuthError, Result, ok, err, or_fail, server_error}
use openauth.Types.Effect.{Exec, pure, fail, lift, ◌>>=◌, ◌>>◌}
use openauth.Types.Json.{Json}
use openauth.Types.Tenant.{TenantConfig, ClientConfig, find_client}
use openauth.Types.Token.{
  SubjectClaim, ClaimsRequest, RefreshTokenPayload, AccessTokenClaims, TokenType, bearer, dpop,
  TokenResponse,
}
use openauth.Types.Audit.{token_issued}
use openauth.IdToken.{build_id_token_claims, should_issue_id_token}
use openauth.TokenStore.{save_refresh}
use openauth.World.{SigningKey, TokenIssued, Env, World, with_tokens, safe_audit}
use openauth.Token.SubjectId.{derive_subject_id}

abbrev pub default_access_ttl_ms : ℕ
default_access_ttl_ms = 15 * 60 * 1000

abbrev pub default_refresh_ttl_ms : ℕ
default_refresh_ttl_ms = 30 * 24 * 60 * 60 * 1000

-- The argument of `mintTokens` less its `deps`: the tenant, the claim, the payload, the family and
-- `skipRefresh`.
pub record MintArgs : Type 0 where
  pub tenant : TenantConfig
  pub claim : SubjectClaim
  pub tenant_id : String
  pub client_id : String
  pub method_id : String
  pub method_kind : String
  pub scopes : List String
  pub audience : Option String
  pub auth_time : Option ℕ
  pub app_nonce : Option String
  pub dpop_jkt : Option String
  pub claims_request : Option ClaimsRequest
  pub family : String
  pub skip_refresh : Bool

-- `ttl !== undefined ? ttl * 1000 : d`
abbrev ttl_ms : Option ℕ → ℕ → ℕ
ttl_ms none d = d
ttl_ms (some seconds) d = seconds * 1000

abbrev sector_of : Option ClientConfig → Option String
sector_of none = none
sector_of (some c) = c.sector_identifier

abbrev userinfo_names : Option ClaimsRequest → Option (List String)
userinfo_names none = none
userinfo_names (some r) = elim r.userinfo [ [] ↦ none | n ∷ ns ↦ some (n ∷ ns) ]

abbrev key_threw : AuthError
key_threw = server_error "subjectKey hook threw"

abbrev key_empty : AuthError
key_empty =
    server_error
      "subjectKey returned an empty key; every subject of this type would share one `sub`"

abbrev pub id_token_failed : AuthError
id_token_failed = server_error "id_token sign failed"

-- A blank key is refused, since every subject of the type would share it.
checked_key : Option String → Result (Option String)
checked_key none = err key_threw
checked_key (some key) = if is_blank key then err key_empty else ok (some key)

subject_key_of : Option (SubjectClaim → Option String) → SubjectClaim → Result (Option String)
subject_key_of none claim = ok none
subject_key_of (some hook) claim = checked_key (hook claim)

tell_host : Option (TokenIssued → Bool) → TokenIssued → Result (Unit {0})
tell_host none issued = ok tt
tell_host (some hook) issued =
    if hook issued then ok tt else err (server_error "onTokenIssued hook threw")

module _ (env : Env) (args : MintArgs) where
  unfoldable pub access_ttl : ℕ
  access_ttl = ttl_ms args.tenant.access_ttl default_access_ttl_ms

  unfoldable pub refresh_ttl : ℕ
  refresh_ttl = ttl_ms args.tenant.refresh_ttl default_refresh_ttl_ms

  subject_id_of : Option String → String
  subject_id_of key =
      derive_subject_id env.jose.stringify env.platform args.claim
        (sector_of (find_client args.tenant args.client_id)) key

  unfoldable pub access_claims : String → AccessTokenClaims
  unfolding access_ttl
  access_claims subject_id = record {
    iss = env.issuer_url;
    sub = subject_id;
    aud = get_or_else args.audience args.client_id;
    exp = (env.now + access_ttl) / 1000;
    iat = env.now / 1000;
    tid = args.tenant_id;
    mid = some args.method_id;
    mkind = some args.method_kind;
    scope = some (join " " args.scopes);
    auth_time = args.auth_time;
    cnf = args.dpop_jkt;
    uic = userinfo_names args.claims_request;
    claim = args.claim;
  }

  unfoldable pub refresh_payload : String → RefreshTokenPayload
  unfolding refresh_ttl
  refresh_payload subject_id = record {
    tenant_id = args.tenant_id;
    client_id = args.client_id;
    subject_id = subject_id;
    claim = args.claim;
    scopes = args.scopes;
    audience = args.audience;
    family = args.family;
    method_id = args.method_id;
    method_kind = args.method_kind;
    auth_time = get_or_else args.auth_time (env.now / 1000);
    dpop_jkt = args.dpop_jkt;
    claims_request = args.claims_request;
    issued_at = env.now;
    expires_at = env.now + refresh_ttl;
  }

  -- the refresh token, if one is to be issued
  store_refresh : String → Exec World (Option String)
  unfolding refresh_payload
  store_refresh subject_id = if args.skip_refresh then pure none else do
    with_tokens (save_refresh env.new_refresh_token (refresh_payload subject_id))
    pure (some env.new_refresh_token)

  id_claims : String → String → ℕ → List (String × Json)
  id_claims subject_id access_token auth_time = build_id_token_claims env.platform (record {
    issuer_url = env.issuer_url;
    audience = args.client_id;
    subject_id = subject_id;
    claim = args.claim;
    scopes = args.scopes;
    auth_time = auth_time;
    app_nonce = args.app_nonce;
    now = env.now;
    method_kind = args.method_kind;
    access_token = access_token;
    claims_request = args.claims_request;
    custom_scope_claims = env.host.custom_scope_claims;
  })

  sign_id_for : Option ℕ → String → String → SigningKey → Result (Option String)
  unfolding id_claims
  sign_id_for none subject_id access_token key = ok none
  sign_id_for (some auth_time) subject_id access_token key =
      if should_issue_id_token args.scopes
      then elim (env.jose.sign_id_token (id_claims subject_id access_token auth_time) key) [
        | none ↦ err id_token_failed
        | some t ↦ ok (some t)
      ]
      else ok none

  hash_for_audit : Option String → String
  hash_for_audit none = ""
  hash_for_audit (some token) = take_chars 16 (env.platform.sha256_b64 token)

  response : String → Option String → Option String → TokenResponse
  unfolding access_ttl
  response access_token refresh id_token = record {
    access_token = access_token;
    token_type = if is_some args.dpop_jkt then dpop else bearer;
    expires_in = access_ttl / 1000;
    refresh_token = refresh;
    id_token = id_token;
    scope = join " " args.scopes;
  }

  -- What is decided before anything is written: the host's hooks, and the signed access token.
  unfoldable pub prepare : Result (String × String × SigningKey)
  unfolding checked_key subject_key_of tell_host subject_id_of access_claims
  prepare = elim (subject_key_of env.host.subject_key args.claim) [
    | err e ↦ err e
    | ok key ↦
        elim (tell_host env.host.on_token_issued (record {
          tenant_id = args.tenant_id;
          client_id = args.client_id;
          subject_id = subject_id_of key;
          claim = args.claim;
          family = if args.skip_refresh then none else some args.family;
        })) [
          | err e ↦ err e
          | ok _ ↦ elim env.keys.current_signing_key [
            | err e ↦ err e
            | ok signing ↦
                elim (env.jose.sign_access_token (access_claims (subject_id_of key)) signing) [
                  | none ↦ err (server_error "access token sign failed")
                  | some token ↦ ok (subject_id_of key, token, signing)
                ]
          ]
        ]
  ]

  unfoldable pub issue : String × String × SigningKey → Exec World TokenResponse
  unfolding store_refresh sign_id_for hash_for_audit response
  issue (subject_id, access_token, key) = do
    refresh ← store_refresh subject_id
    id_token ← lift (sign_id_for args.auth_time subject_id access_token key)
    safe_audit (
        token_issued args.tenant_id args.client_id args.method_id args.method_kind subject_id
          (hash_for_audit refresh) (is_some id_token) (is_some args.dpop_jkt) env.now)
    pure (response access_token refresh id_token)

  unfoldable pub mint_tokens : Exec World TokenResponse
  mint_tokens = do prepared ← lift prepare; issue prepared
