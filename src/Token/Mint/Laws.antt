-- ===== src/Token/Mint/Laws.antt =====
-- What a successful mint has written and what its tokens say. About
-- packages/openauth/src/domain/token.ts.
use openauth.Prelude.{
  ℕ, ◌+◌, ◌*◌, ◌/◌, String, ◌&&◌, Option, none, some, [], ◌∷◌, ◌≡◌, refl, arith, eq_refl,
  if◌then◌else◌, is_some, get_or_else, includes, join, inl, inr, ◌⊎◌, Option-cases,
}
use openauth.Types.Error.{AuthError, Result, ok, err, Result-cases}
use openauth.Types.Effect.{continue}
use openauth.Types.Tenant.{find_client}
use openauth.Types.Token.{
  SubjectClaim, ClaimsRequest, AccessTokenClaims, RefreshTokenPayload, bearer, dpop, TokenResponse,
}
use openauth.IdToken.{should_issue_id_token}
use openauth.TokenStore.{save_refresh}
use openauth.World.{SigningKey, Env, World}
use openauth.Token.SubjectId.{derive_subject_id}
use openauth.Token.Mint.{
  MintArgs, access_ttl, refresh_ttl, ttl_ms, userinfo_names, checked_key, subject_key_of,
  subject_id_of, access_claims, refresh_payload, prepare, issue, id_token_failed, mint_tokens,
}

ttl_ms_lem : (o : Option ℕ) (d : ℕ) → ttl_ms o d ≡ (elim o [ none ↦ d | some s ↦ s * 1000 ])
ttl_ms_lem none d = refl
ttl_ms_lem (some s) d = refl

module _ (env : Env) (args : MintArgs) where
  -- The access token says what the grant is for, to whom and until when.
  pub record IsAccessOf (subject_id : String) (ttl : ℕ) (c : AccessTokenClaims) : Type 0 where
    pub issuer : c.iss ≡ env.issuer_url
    pub subject : c.sub ≡ subject_id
    pub audience : c.aud ≡ get_or_else args.audience args.client_id
    pub issued_at : c.iat ≡ env.now / 1000
    pub expires : c.exp ≡ (env.now + ttl) / 1000
    pub tenant : c.tid ≡ args.tenant_id
    pub method : c.mid ≡ some args.method_id
    pub kind : c.mkind ≡ some args.method_kind
    pub scope : c.scope ≡ some (join " " args.scopes)
    pub authenticated : c.auth_time ≡ args.auth_time
    pub bound : c.cnf ≡ args.dpop_jkt
    pub asked : c.uic ≡ (elim args.claims_request [
      | none ↦ none
      | some r ↦ elim r.userinfo [ [] ↦ none | n ∷ ns ↦ some (n ∷ ns) ]
    ])
    pub claim : c.claim ≡ args.claim

  -- The row of the refresh token keeps the grant, and until when it can be used.
  pub record IsRefreshOf (subject_id : String) (ttl : ℕ) (p : RefreshTokenPayload) : Type 0 where
    pub tenant : p.tenant_id ≡ args.tenant_id
    pub client : p.client_id ≡ args.client_id
    pub subject : p.subject_id ≡ subject_id
    pub claim : p.claim ≡ args.claim
    pub scopes : p.scopes ≡ args.scopes
    pub audience : p.audience ≡ args.audience
    pub family : p.family ≡ args.family
    pub method : p.method_id ≡ args.method_id
    pub kind : p.method_kind ≡ args.method_kind
    pub authenticated : p.auth_time ≡ get_or_else args.auth_time (env.now / 1000)
    pub bound : p.dpop_jkt ≡ args.dpop_jkt
    pub asked : p.claims_request ≡ args.claims_request
    pub issued_at : p.issued_at ≡ env.now
    pub expires : p.expires_at ≡ env.now + ttl

  -- The subject's id comes of the claim, the sector of the client and the host's key for the subject.
  pub record IsSubject (subject_id : String) : Type 0 where
    pub key : Option String
    pub keyed : key ≡ (elim env.host.subject_key [ none ↦ none | some hook ↦ hook args.claim ])
    pub derived :
        subject_id
        ≡ derive_subject_id env.jose.stringify env.platform args.claim
            (elim (find_client args.tenant args.client_id) [
              | none ↦ none
              | some c ↦ c.sector_identifier
            ])
            key

  -- What a response is worth: both tokens are of one subject and carry what the grant was for, the
  -- access token is signed by the current key; the refresh token is stored, unconsumed.
  pub record IsMinted (w w' : World) (r : TokenResponse) : Type 0 where
    pub subject_id : String
    pub ttl : ℕ
    pub refresh_ttl : ℕ
    pub key : SigningKey
    pub claims : AccessTokenClaims
    pub payload : RefreshTokenPayload
    pub subject : IsSubject subject_id
    -- 15 minutes and 30 days where the tenant says nothing
    pub lasts : ttl ≡ (elim args.tenant.access_ttl [ none ↦ 900000 | some s ↦ s * 1000 ])
    pub refresh_lasts :
        refresh_ttl ≡ (elim args.tenant.refresh_ttl [ none ↦ 2592000000 | some s ↦ s * 1000 ])
    pub current : env.keys.current_signing_key ≡ ok key
    pub says : IsAccessOf subject_id ttl claims
    pub access : env.jose.sign_access_token claims key ≡ some r.access_token
    pub bound : r.token_type ≡ (if is_some args.dpop_jkt then dpop else bearer)
    pub lifetime : r.expires_in ≡ ttl / 1000
    pub scopes : r.scope ≡ join " " args.scopes
    -- an id_token just when a user authenticated and `openid` was granted
    pub id_token : is_some r.id_token ≡ (is_some args.auth_time && includes args.scopes "openid")
    pub refresh : r.refresh_token ≡ (if args.skip_refresh then none else some env.new_refresh_token)
    pub keeps : IsRefreshOf subject_id refresh_ttl payload
    pub stored : w'.tokens ≡ (
        if args.skip_refresh
        then w.tokens
        else (save_refresh env.new_refresh_token payload w.tokens).1)
    pub row : w'.tokens.refresh env.new_refresh_token ≡ (
        if args.skip_refresh
        then w.tokens.refresh env.new_refresh_token
        else some (record { payload = payload; consumed_at = none }))

  access_claims-IsAccessOf :
      (subject_id : String)
      → IsAccessOf subject_id (access_ttl env args) (access_claims env args subject_id)
  unfolding access_claims
  access_claims-IsAccessOf subject_id = record {
    issuer = refl;
    subject = refl;
    audience = refl;
    issued_at = refl;
    expires = refl;
    tenant = refl;
    method = refl;
    kind = refl;
    scope = refl;
    authenticated = refl;
    bound = refl;
    asked = by_request args.claims_request;
    claim = refl;
  }
    where
      by_request :
          (q : Option ClaimsRequest)
          → userinfo_names q ≡ (elim q [
            | none ↦ none
            | some r ↦ elim r.userinfo [ [] ↦ none | n ∷ ns ↦ some (n ∷ ns) ]
          ])
      by_request none = refl
      by_request (some r) = refl

  refresh_payload-IsRefreshOf :
      (subject_id : String)
      → IsRefreshOf subject_id (refresh_ttl env args) (refresh_payload env args subject_id)
  unfolding refresh_payload
  refresh_payload-IsRefreshOf subject_id = record {
    tenant = refl;
    client = refl;
    subject = refl;
    claim = refl;
    scopes = refl;
    audience = refl;
    family = refl;
    method = refl;
    kind = refl;
    authenticated = refl;
    bound = refl;
    asked = refl;
    issued_at = refl;
    expires = refl;
  }

  subject_key_of_sound :
      (hook : Option (SubjectClaim → Option String)) (claim : SubjectClaim) (k : Option String)
      → subject_key_of hook claim ≡ ok k
      → k ≡ (elim hook [ none ↦ none | some f ↦ f claim ])
  unfolding subject_key_of checked_key
  subject_key_of_sound none claim k h = ground arith
  subject_key_of_sound (some f) claim k h = elim (Option-cases (f claim)) [
    | inl e ↦ absurd (ground arith)
    | inr (key, e) ↦ ground arith
  ]

  prepare_sound :
      (subject_id token : String) (key : SigningKey)
      → prepare env args ≡ ok (subject_id, token, key)
      → IsSubject subject_id
        × (env.keys.current_signing_key ≡ ok key)
        × (env.jose.sign_access_token (access_claims env args subject_id) key ≡ some token)
  unfolding prepare subject_id_of
  prepare_sound subject_id token key h =
      elim (Result-cases (subject_key_of env.host.subject_key args.claim)) [
        | inl (k, e) ↦ (
          record {
            key = k;
            keyed = subject_key_of_sound env.host.subject_key args.claim k e;
            derived = ground arith;
          },
          ground arith,
          ground arith,
        )
        | inr (x, e) ↦ absurd (ground arith)
      ]

  issue_sound :
      (subject_id token : String) (key : SigningKey) (w : World) (r : TokenResponse)
      → IsSubject subject_id
      → env.keys.current_signing_key ≡ ok key
      → env.jose.sign_access_token (access_claims env args subject_id) key ≡ some token
      → (issue env args (subject_id, token, key) w).0 ≡ ok r
      → IsMinted w (issue env args (subject_id, token, key) w).1 r
  unfolding issue save_refresh should_issue_id_token access_ttl refresh_ttl
  issue_sound subject_id token key w r subject c a h = record {
    subject_id = subject_id;
    ttl = access_ttl env args;
    refresh_ttl = refresh_ttl env args;
    key = key;
    claims = access_claims env args subject_id;
    payload = refresh_payload env args subject_id;
    subject = subject;
    lasts = ttl_ms_lem args.tenant.access_ttl 900000;
    refresh_lasts = ttl_ms_lem args.tenant.refresh_ttl 2592000000;
    current = c;
    says = access_claims-IsAccessOf subject_id;
    access = ground arith;
    bound = ground arith;
    lifetime = ground arith;
    scopes = ground arith;
    id_token = ground arith;
    refresh = ground arith;
    keeps = refresh_payload-IsRefreshOf subject_id;
    stored = ground arith;
    row = ground (arith, eq_refl env.new_refresh_token);
  }

  -- When mintTokens succeeds, the subject's id is derived of the claim, the client's sector and
  -- the host's key, the access token is signed by the current key and says this subject, the
  -- grant's tenant, audience, method, scopes, claim, key and lifetime; the type, lifetime, scope
  -- and presence of the id_token are as the grant says; and the refresh token, if any, is stored
  -- unconsumed, of this subject, in the grant's family, with its tenant, client, claim, scopes and
  -- key.
  pub mint_tokens-IsMinted :
      (w : World) (r : TokenResponse)
      → (mint_tokens env args w).0 ≡ ok r
      → IsMinted w (mint_tokens env args w).1 r
  mint_tokens-IsMinted w r h = unfold mint_tokens in by_prepared (prepare env args) refl h
    where
      by_prepared :
          (p : Result (String × String × SigningKey))
          → prepare env args ≡ p
          → (continue p (issue env args) w).0 ≡ ok r
          → IsMinted w (continue p (issue env args) w).1 r
      by_prepared (err e) eq k = absurd (cc)
      by_prepared (ok (s, t, key)) eq k =
          let (i, c, a) = prepare_sound s t key eq in issue_sound s t key w r i c a k

  issue-err :
      (subject_id token : String) (key : SigningKey) (w : World) (e : AuthError)
      → (issue env args (subject_id, token, key) w).0 ≡ err e
      → ((issue env args (subject_id, token, key) w).1.audit ≡ w.audit) × (e ≡ id_token_failed)
  unfolding issue save_refresh
  issue-err subject_id token key w e h = (ground arith, ground arith)

  -- A mint that fails has emitted no audit event, and unless it failed signing the id_token it has
  -- changed nothing at all.
  pub mint_tokens-err :
      (w : World) (e : AuthError)
      → (mint_tokens env args w).0 ≡ err e
      → ((mint_tokens env args w).1.audit ≡ w.audit)
        × (((mint_tokens env args w).1 ≡ w) ⊎ (e ≡ id_token_failed))
  mint_tokens-err w e h = unfold mint_tokens in by_prepared (prepare env args) h
    where
      by_prepared :
          (p : Result (String × String × SigningKey))
          → (continue p (issue env args) w).0 ≡ err e
          → ((continue p (issue env args) w).1.audit ≡ w.audit)
            × (((continue p (issue env args) w).1 ≡ w) ⊎ (e ≡ id_token_failed))
      by_prepared (err e') k = (refl, inl refl)
      by_prepared (ok (s, t, key)) k = let (a, b) = issue-err s t key w e k in (a, inr b)
