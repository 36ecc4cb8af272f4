-- ===== src/Tests/Fixtures.antt =====
-- One tenant with a public and a confidential client, a host with one type of subject, and a store with
-- a code and a refresh token. What jose does is a toy: it answers for one code and one access token.
use openauth.Prelude.{
  String, true, false, none, some, [], ◌∷◌, ◌==◌, empty, if◌then◌else◌, inl, inr,
}
use openauth.Types.Error.{ok, err, invalid_client}
use openauth.Types.Json.{Fields, end, field, str, obj}
use openauth.Types.Tenant.{
  ClientConfig, TenantConfig, public, confidential, authorization_code, refresh_token,
}
use openauth.Types.Token.{SubjectClaim, CodePayload, RefreshTokenPayload, AccessTokenClaims}
use openauth.Subject.{value}
use openauth.SessionStore.{new_session_store}
use openauth.TokenStore.{TokenStore, StoredRefresh, new_store}
use openauth.World.{SigningKey, EncryptionKey, Jose, Env, World}
use openauth.Tests.Platforms.{platform}

abbrev pub spa : ClientConfig
spa = record {
  id = "spa";
  type = public;
  redirect_uris = "https://spa.example/cb" ∷ [];
  grant_types = authorization_code ∷ refresh_token ∷ [];
  scopes = "openid" ∷ "email" ∷ [];
  post_logout_redirect_uris = "https://spa.example/bye" ∷ [];
  require_pushed_authorization_requests = false;
  sector_identifier = none;
  dpop_required = false;
}

abbrev pub web : ClientConfig
web = record spa { id = "web"; type = confidential "s3cret" true }

abbrev pub acme : TenantConfig
acme = record {
  id = "acme";
  clients = spa ∷ web ∷ [];
  methods = [];
  refresh_ttl = none;
  access_ttl = none;
}

abbrev pub profile : Fields
profile = field "id" (str "u1") (field "email" (str "u1@example.com") end)

abbrev pub user : SubjectClaim
user = record { type = "user"; properties = obj profile }

-- Its challenge is its own text, for the platform's hash is the identity.
abbrev pub verifier : String
verifier = "0123456789012345678901234567890123456789012"

abbrev pub code_payload : CodePayload
code_payload = record {
  tenant_id = "acme";
  client_id = "spa";
  app_redirect_uri = "https://spa.example/cb";
  app_state = none;
  scopes = "openid" ∷ "email" ∷ [];
  audience = none;
  client_pkce = some verifier;
  method_id = "pw";
  method_kind = "password";
  context = none;
  provider_subject = "u1";
  properties = obj profile;
  app_nonce = some "n1";
  auth_time = 1;
  claims_request = none;
  expires_at = 60000;
}

abbrev pub refresh_row : RefreshTokenPayload
refresh_row = record {
  tenant_id = "acme";
  client_id = "spa";
  subject_id = "user:u1";
  claim = user;
  scopes = "openid" ∷ "email" ∷ [];
  audience = none;
  family = "f1";
  method_id = "pw";
  method_kind = "password";
  auth_time = 1;
  dpop_jkt = some "k1";
  claims_request = none;
  issued_at = 1000;
  expires_at = 900000;
}

abbrev pub signing_key : SigningKey
signing_key = record { kid = "s1"; alg = "ES256"; public_jwk = end }

abbrev pub encryption_key : EncryptionKey
encryption_key = record { kid = "e1"; key_ref = "key" }

abbrev pub access_token_claims : AccessTokenClaims
access_token_claims = record {
  iss = "https://id.example";
  sub = "user:u1";
  aud = "web";
  exp = 900;
  iat = 1;
  tid = "acme";
  mid = some "pw";
  mkind = some "password";
  scope = some "openid";
  auth_time = some 1;
  cnf = none;
  uic = none;
  claim = user;
}

abbrev pub jose : Jose
jose = record {
  sign_access_token = λ c k. some "access";
  sign_id_token = λ c k. some "id";
  verify_access_token = λ t keys iss now. if t == "access" then some access_token_claims else none;
  access_token_error = λ t keys iss now. "bad token";
  lacks_claim = λ t. false;
  verify_id_token = λ t keys iss. if t == "hint" then inr ("user:u1", "spa") else inl "bad token";
  encrypt_payload = λ p k. some "sealed";
  decrypt_payload = λ t k. if t == "sealed" then some code_payload else none;
  stringify = λ j. "x";
}

abbrev pub env : Env
env = record {
  platform = platform;
  jose = jose;
  keys = record {
    current_signing_key = ok signing_key;
    signing_keys = ok (signing_key ∷ []);
    current_encryption_key = ok encryption_key;
    get_encryption_key = λ kid. ok encryption_key;
  };
  config = λ t. if t == "acme" then ok acme else err (invalid_client "no tenant");
  host = record {
    success = λ input. some (record { type = "user"; properties = input.properties });
    subjects = ("user", value) ∷ [];
    persist_upstream_tokens = none;
    on_token_issued = none;
    subject_key = none;
    custom_scope_claims = [];
  };
  issuer_url = "https://id.example";
  now = 2000;
  new_refresh_token = "r2";
  new_family = "f2";
  new_code = "c2";
  reuse_window_ms = none;
}

-- the code "c1", and the unconsumed refresh token "r1"
abbrev pub tokens : TokenStore
tokens = record new_store {
  codes =
      λ c. if c == "c1" then some (record { ciphertext = "sealed"; expires_at = 61000 }) else none;
  refresh =
      λ r. if r == "r1" then some (record { payload = refresh_row; consumed_at = none }) else none;
}

abbrev pub world : World
world = record {
  tokens = tokens;
  sessions = new_session_store;
  methods = record { cache = empty; disabled = empty };
  audit = [];
}

-- the same after "r1" has been consumed
abbrev pub used_row : StoredRefresh
used_row = record { payload = refresh_row; consumed_at = some 1500 }

abbrev pub used_world : World
used_world = record world {
  tokens = record tokens { refresh = λ r. if r == "r1" then some used_row else none };
}
