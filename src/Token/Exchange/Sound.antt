-- ===== src/Token/Exchange/Sound.antt =====
-- What `exchangeCode` guarantees: tokens only for a code's own client and request, and once. About
-- packages/openauth/src/domain/token.ts.
use openauth.Prelude.{
  ℕ, ◌<◌, String, false, none, some, ◌≡◌, refl, arith, eq_refl, ◌<>◌, ap, ◌∙◌, Option-cases, inl,
  inr,
}
use openauth.Types.Error.{ok, or_fail, or_fail-eq-ok, invalid_client, server_error}
use openauth.Types.Effect.{lift, after_bind, bind-eq-ok, ◌>>=◌, ◌>>◌}
use openauth.Types.Effect.Keeps.{Keeps, keeps_rules}
use openauth.Types.Json.{Json}
use openauth.Types.Tenant.{TenantConfig, ClientConfig, find_client}
use openauth.Types.Token.{SubjectClaim, CodePayload, TokenResponse}
use openauth.Crypto.{IsUtf8}
use openauth.Subject.{
  Validated, accepted, rejected, Validation, value, schema_for, validate_subject_claim,
  validate_subject_claim_sound,
}
use openauth.TokenStore.{TokenStore, consume_code}
use openauth.World.{Env, World, SuccessMapInput, with_tokens}
use openauth.Token.Mint.{mint_tokens}
use openauth.Token.Mint.Laws.{IsMinted, mint_tokens-IsMinted}
use openauth.Token.Exchange.Checks.{IsEntitled, request_check_sound}
use openauth.Token.Exchange.{
  TokenAuthCodeRequest, usable, decrypted, request_check, subject_claim, accept_claim, map_input,
  mint_args, run_persist, grant_code, with_tenant, exchange_payload, exchange_code,
}

module _ (env : Env) (req : TokenAuthCodeRequest) where
  -- Why a code was exchanged, and what for.
  pub record IsGranted (w w' : World) (r : TokenResponse) : Type 0 where
    pub ciphertext : String
    pub payload : CodePayload
    pub tenant : TenantConfig
    pub client : ClientConfig
    pub raw : SubjectClaim
    pub claim : SubjectClaim
    pub before : World
    pub expiry : ℕ
    pub known :
        w.tokens.codes req.code ≡ some (record { ciphertext = ciphertext; expires_at = expiry })
    pub live : env.now < expiry
    pub plain :
        env.jose.decrypt_payload ciphertext (λ kid. usable (env.keys.get_encryption_key kid))
        ≡ some payload
    pub configured : env.config payload.tenant_id ≡ ok tenant
    pub registered : find_client tenant payload.client_id ≡ some client
    pub entitled : IsEntitled env req payload client
    -- the host is asked about the user that the code is for
    pub mapped :
        env.host.success (record {
          tenant_id = payload.tenant_id;
          method_id = payload.method_id;
          method_kind = payload.method_kind;
          provider_subject = payload.provider_subject;
          properties = payload.properties;
          context = payload.context;
        })
        ≡ some raw
    -- the claim is the host's, with the properties as the schema of its type parsed them
    pub schema : Json → Validation
    pub declared : schema_for raw.type env.host.subjects ≡ some schema
    pub fits : schema raw.properties ≡ value claim.properties
    pub same_type : claim.type ≡ raw.type
    pub spent : before.tokens ≡ (consume_code env.now req.code w.tokens).1
    pub gone : before.tokens.codes req.code ≡ none
    -- the grant: of the code, but for the key, which is the presented one, and the new family
    pub minted :
        IsMinted env
          (record {
            tenant = tenant;
            claim = claim;
            tenant_id = payload.tenant_id;
            client_id = payload.client_id;
            method_id = payload.method_id;
            method_kind = payload.method_kind;
            scopes = payload.scopes;
            audience = payload.audience;
            auth_time = some payload.auth_time;
            app_nonce = payload.app_nonce;
            dpop_jkt = req.dpop_jkt;
            claims_request = payload.claims_request;
            family = env.new_family;
            skip_refresh = false;
          })
          before
          w'
          r

consume_code_sound :
    (now : ℕ) (code ciphertext : String) (s : TokenStore)
    → (consume_code now code s).0 ≡ ok ciphertext
    → (expiry : ℕ) × (s.codes code ≡ some (record { ciphertext = ciphertext; expires_at = expiry }))
      × (now < expiry)
      × ((consume_code now code s).1.codes code ≡ none)
unfolding consume_code
consume_code_sound now code ciphertext s h = elim (Option-cases (s.codes code)) [
  | inl e ↦ absurd (ground arith)
  | inr (stored, e) ↦ (stored.expires_at, ground arith, ground arith, ground (arith, eq_refl code))
]

accept_claim-eq-ok :
    (env : Env) (t c : String) (v : Validated) (w : World) (claim : SubjectClaim)
    → (accept_claim env t c v w).0 ≡ ok claim
    → v ≡ accepted claim
unfolding accept_claim
accept_claim-eq-ok env t c (accepted x) w claim h = ground arith
accept_claim-eq-ok env t c (rejected e r) w claim h = cc

pub request_check-unchanged :
    (env : Env) (req : TokenAuthCodeRequest) (payload : CodePayload) (client : ClientConfig)
    (w : World)
    → (request_check env req payload client w).1 ≡ w
unfolding request_check
request_check-unchanged env req payload client w =
    let k : Keeps (λ v. v ≡ w) (request_check env req payload client) = search keeps_rules in
    k.at w refl

pub subject_claim-tokens :
    (env : Env) (input : SuccessMapInput) (client_id : String) (w : World)
    → (subject_claim env input client_id w).1.tokens ≡ w.tokens
unfolding subject_claim accept_claim
subject_claim-tokens env input client_id w = ground arith

module _ (env : Env) (req : TokenAuthCodeRequest) (utf8 : IsUtf8 env.platform) where
  -- After the checks: the claim comes from the host, fits its schema, and is what the tokens carry.
  grant_code-IsGranted :
      (P : World → Type 0) (payload : CodePayload) (tenant : TenantConfig) (w : World)
      (r : TokenResponse)
      → (grant_code env req payload tenant w).0 ≡ ok r
      → ((raw claim : SubjectClaim) (before w' : World)
          → env.host.success (map_input payload) ≡ some raw
          → validate_subject_claim env.host.subjects raw ≡ accepted claim
          → before.tokens ≡ w.tokens
          → IsMinted env (mint_args env req payload tenant claim) before w' r
          → P w')
      → P (grant_code env req payload tenant w).1
  unfolding grant_code subject_claim
  grant_code-IsGranted P payload tenant w r h k =
      after_bind P (subject_claim env (map_input payload) payload.client_id)
        (λ claim.
          lift (run_persist env.host.persist_upstream_tokens (map_input payload) claim)
          >> mint_tokens env (mint_args env req payload tenant claim))
        w r h
        λ claim made h1.
          let (raw, mapped, valid) =
            bind-eq-ok
              (lift (
                or_fail (server_error "success callback threw")
                  (env.host.success (map_input payload))))
              (λ x.
                accept_claim env payload.tenant_id payload.client_id
                  (validate_subject_claim env.host.subjects x))
              w claim made in
          let w1 : World = (subject_claim env (map_input payload) payload.client_id w).1 in
          after_bind P
            (lift (run_persist env.host.persist_upstream_tokens (map_input payload) claim))
            (λ _. mint_tokens env (mint_args env req payload tenant claim)) w1 r h1
            λ _ persisted h2.
              k raw claim w1 _ (or_fail-eq-ok _ _ raw mapped)
                (accept_claim-eq-ok env payload.tenant_id payload.client_id _ w claim valid)
                (subject_claim-tokens env (map_input payload) payload.client_id w)
                (mint_tokens-IsMinted env (mint_args env req payload tenant claim) w1 r h2)

  -- Over an encoding that keeps the laws of UTF-8, when exchangeCode succeeds, the code was live,
  -- its payload's tenant and client are configured, the request passed every check (client,
  -- secret, DPoP where required, redirect URI, PKCE), the host's claim fits its declared schema,
  -- and the tokens are minted for the code's own tenant, client, scopes, method and time of
  -- authentication, bound to the presented key.
  pub exchange_code-IsGranted :
      (w : World) (r : TokenResponse)
      → (exchange_code env req w).0 ≡ ok r
      → IsGranted env req w (exchange_code env req w).1 r
  unfolding exchange_code exchange_payload with_tenant decrypted
  exchange_code-IsGranted w r h =
      let P = λ (w' : World). IsGranted env req w w' r in
      after_bind P (with_tokens (consume_code env.now req.code))
        (λ c. lift (decrypted env c) >>= exchange_payload env req) w r h
        λ ciphertext consumed h1.
          let w1 : World = (with_tokens (consume_code env.now req.code) w).1 in
          after_bind P (lift (decrypted env ciphertext)) (exchange_payload env req) w1 r h1
            λ payload plain h2.
              after_bind P (lift (env.config payload.tenant_id)) (with_tenant env req payload) w1 r
                h2
                λ tenant configured h3.
                  after_bind P
                    (lift (
                      or_fail (invalid_client ("unknown client \"" <> payload.client_id <> "\""))
                        (find_client tenant payload.client_id)))
                    (λ client.
                      request_check env req payload client >> grant_code env req payload tenant)
                    w1 r h3
                    λ client registered h4.
                      after_bind P (request_check env req payload client)
                        (λ _. grant_code env req payload tenant) w1 r h4
                        λ checked passed h5.
                          grant_code-IsGranted P payload tenant
                            (request_check env req payload client w1).1 r h5
                            λ raw claim before w' mapped valid untouched minted.
                              let (expiry, known, live, gone) =
                                consume_code_sound env.now req.code ciphertext w.tokens consumed in
                              let (schema, declared, fits, same_type) =
                                validate_subject_claim_sound env.host.subjects raw claim valid in
                              let spent : before.tokens
                                  ≡ (consume_code env.now req.code w.tokens).1 =
                                untouched
                                ∙ ap (λ (v : World). v.tokens)
                                    (request_check-unchanged env req payload client w1) in
                              record {
                                ciphertext = ciphertext;
                                payload = payload;
                                tenant = tenant;
                                client = client;
                                raw = raw;
                                claim = claim;
                                before = before;
                                expiry = expiry;
                                known = known;
                                live = live;
                                plain = or_fail-eq-ok _ _ payload plain;
                                configured = configured;
                                registered = or_fail-eq-ok _ _ client registered;
                                entitled =
                                    request_check_sound env utf8 req payload client w1 passed;
                                mapped = mapped;
                                schema = schema;
                                declared = declared;
                                fits = fits;
                                same_type = same_type;
                                spent = spent;
                                gone = ap (λ (t : TokenStore). t.codes req.code) spent ∙ gone;
                                minted = minted;
                              }
