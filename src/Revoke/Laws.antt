-- ===== src/Revoke/Laws.antt =====
-- Who revokes what. About packages/openauth/src/domain/revoke.ts.
use openauth.Prelude.{
  ℕ, ◌<◌, String, Bool, true, false, Option, none, some, [], ◌∷◌, ◌++◌, ◌==◌, ◌≡◌, ◌≢◌, refl, arith,
  eq_iff, eq_refl, if◌then◌else◌, ◌⊎◌, inl, inr, Bool-cases, Option-cases,
}
use openauth.Types.Error.{Result, ok, err}
use openauth.Types.Effect.{pure, attempt, ◌>>=◌}
use openauth.Types.Tenant.{
  TenantConfig, ClientConfig, ClientType, public, confidential, find_client,
}
use openauth.Types.Token.{RefreshTokenPayload}
use openauth.Types.Audit.{token_revoked, revoke_wrong_client_attempt}
use openauth.Crypto.{IsUtf8}
use openauth.ClientAuth.{verify_client_credentials}
use openauth.ClientAuth.Laws.{verify_client_credentials_iff}
use openauth.TokenStore.{
  StoredRefresh, peek_refresh, consume_refresh, revoke_by_subject, refresh_unknown,
}
use openauth.World.{Env, World, with_tokens}
use openauth.Refresh.{RefreshGrantRequest, gate, refresh_tokens}
use openauth.Refresh.Gate.{IsOwner}
use openauth.Refresh.Sound.{peek_refresh_sound, peek_refresh-unchanged}
use openauth.Revoke.{
  RevokeRequest, refresh_token, has_credentials, presented_check, wrong_client, consume_and_audit,
  or_silently, is_access_token, revoke_owned, revoke_client, revoke_peeked, revoke_token,
  revoke_all_for_subject,
}

pub refresh_tokens-unknown :
    (env : Env) (req : RefreshGrantRequest) (w : World)
    → w.tokens.refresh req.refresh_token ≡ none
    → refresh_tokens env req w ≡ (err refresh_unknown, w)
unfolding refresh_tokens gate peek_refresh
refresh_tokens-unknown env req w h = ground arith

pub revoked_rows :
    (env : Env) (w : World) (token : String) (stored : StoredRefresh)
    (tenant_id subject_id other : String) (kept : StoredRefresh)
    → w.tokens.refresh token ≡ some stored
    → stored.payload.tenant_id ≡ tenant_id
    → stored.payload.subject_id ≡ subject_id
    → w.tokens.refresh other ≡ some kept
    → kept.payload.subject_id ≢ subject_id
    → let w1 = (revoke_all_for_subject env tenant_id subject_id w).1 in
      (w1.tokens.refresh token ≡ none) × (w1.tokens.refresh other ≡ some kept)
unfolding revoke_all_for_subject revoke_by_subject
revoked_rows env w token stored t s other kept h a b k ne = (
  ground (arith, eq_iff stored.payload.tenant_id t, eq_iff stored.payload.subject_id s),
  ground (arith, eq_iff kept.payload.subject_id s),
)

-- After revokeAllForSubject a token of that subject in that tenant is unknown to every later
-- refresh, and a token of another subject is as it was.
pub refresh_tokens-revoke_all_for_subject :
    (env later : Env) (req : RefreshGrantRequest) (w : World) (stored : StoredRefresh)
    (tenant_id subject_id other : String) (kept : StoredRefresh)
    → w.tokens.refresh req.refresh_token ≡ some stored
    → stored.payload.tenant_id ≡ tenant_id
    → stored.payload.subject_id ≡ subject_id
    → w.tokens.refresh other ≡ some kept
    → kept.payload.subject_id ≢ subject_id
    → let w1 = (revoke_all_for_subject env tenant_id subject_id w).1 in
      (refresh_tokens later req w1 ≡ (err refresh_unknown, w1))
      × (w1.tokens.refresh other ≡ some kept)
refresh_tokens-revoke_all_for_subject env later req w stored t s other kept h a b k ne =
    let (gone, stays) = revoked_rows env w req.refresh_token stored t s other kept h a b k ne in
    (refresh_tokens-unknown later req (revoke_all_for_subject env t s w).1 gone, stays)

-- For a stored, live token of a configured tenant and a registered client, a request that hints at
-- a refresh token, has another client_id and gets past the demand for credentials is answered with
-- success; all it changes is that the attempt is audited.
pub revoke_token-stranger :
    (env : Env) (req : RevokeRequest) (w : World) (stored : StoredRefresh) (tenant : TenantConfig)
    (client : ClientConfig) (id : String)
    → req.token_type_hint ≡ some refresh_token
    → w.tokens.refresh req.token ≡ some stored
    → env.now < stored.payload.expires_at
    → env.config stored.payload.tenant_id ≡ ok tenant
    → find_client tenant stored.payload.client_id ≡ some client
    → req.client_id ≡ some id
    → id ≢ stored.payload.client_id
    → has_credentials client.type req.client_id req.client_secret ≡ true
    → revoke_token env req w ≡ (
      ok tt,
      record w {
        audit =
            w.audit
            ++ revoke_wrong_client_attempt stored.payload.tenant_id id stored.payload.client_id
                stored.payload.subject_id env.now
              ∷ [];
      },
    )
unfolding revoke_token revoke_peeked revoke_client revoke_owned wrong_client peek_refresh
revoke_token-stranger env req w stored tenant client id hint known live cfg found presents ne has =
    ground (arith, eq_iff id stored.payload.client_id)

pub record IsRevoker (env : Env) (req : RevokeRequest) (w : World) : Type 0 where
  pub stored : StoredRefresh
  pub tenant : TenantConfig
  pub client : ClientConfig
  pub known : w.tokens.refresh req.token ≡ some stored
  pub live : env.now < stored.payload.expires_at
  pub configured : env.config stored.payload.tenant_id ≡ ok tenant
  pub registered : find_client tenant stored.payload.client_id ≡ some client
  pub owner :
      IsOwner env.platform client.type stored.payload.client_id req.client_secret req.client_id

has_credentials_sound :
    (type : ClientType) (secret : Option String)
    → has_credentials type none secret ≡ true
    → type ≡ public
unfolding has_credentials
has_credentials_sound public secret h = refl
has_credentials_sound (confidential secret_hash pkce) secret h = absurd (cc)

revoke_owned-tokens :
    (env : Env) (req : RevokeRequest) (p : RefreshTokenPayload) (client : ClientConfig)
    (id : Option String) (w : World)
    → IsUtf8 env.platform
    → req.client_id ≡ id
    → ((revoke_owned env req p client w).1.tokens ≡ w.tokens)
      ⊎ IsOwner env.platform client.type p.client_id req.client_secret id
unfolding revoke_owned wrong_client presented_check
revoke_owned-tokens env req p client none w utf8 e =
    elim (Bool-cases (has_credentials client.type none req.client_secret)) [
      | inl h ↦ inr (has_credentials_sound client.type req.client_secret h)
      | inr h ↦ inl (ground arith)
    ]
revoke_owned-tokens env req p client (some id) w utf8 e =
    let iff = verify_client_credentials_iff env.platform client req.client_secret utf8 in
    elim (Bool-cases (id == p.client_id)) [
      | inr h ↦ inl (ground arith)
      | inl h ↦
          elim (Option-cases (verify_client_credentials env.platform client req.client_secret)) [
            | inl v ↦ inr (ground (arith, eq_iff id p.client_id), iff.0 v)
            | inr (x, v) ↦ inl (ground arith)
          ]
    ]

revoke_client-tokens :
    (env : Env) (req : RevokeRequest) (stored : StoredRefresh) (tenant : TenantConfig)
    (found : Option ClientConfig) (w : World)
    → IsUtf8 env.platform
    → w.tokens.refresh req.token ≡ some stored
    → env.now < stored.payload.expires_at
    → env.config stored.payload.tenant_id ≡ ok tenant
    → find_client tenant stored.payload.client_id ≡ found
    → ((revoke_client env req stored.payload found w).1.tokens ≡ w.tokens) ⊎ IsRevoker env req w
unfolding revoke_client
revoke_client-tokens env req stored tenant none w utf8 known live configured found = inl refl
revoke_client-tokens env req stored tenant (some client) w utf8 known live configured found =
    elim (revoke_owned-tokens env req stored.payload client req.client_id w utf8 refl) [
      | inl same ↦ inl same
      | inr owner ↦ inr (record {
        stored = stored;
        tenant = tenant;
        client = client;
        known = known;
        live = live;
        configured = configured;
        registered = found;
        owner = owner;
      })
    ]

revoke_peeked-tokens :
    (env : Env) (req : RevokeRequest) (stored : StoredRefresh) (config : Result TenantConfig)
    (w : World)
    → IsUtf8 env.platform
    → w.tokens.refresh req.token ≡ some stored
    → env.now < stored.payload.expires_at
    → env.config stored.payload.tenant_id ≡ config
    → ((revoke_peeked env req stored.payload w).1.tokens ≡ w.tokens) ⊎ IsRevoker env req w
unfolding revoke_peeked
revoke_peeked-tokens env req stored (ok tenant) w utf8 known live h = rw h (
    revoke_client-tokens env req stored tenant (find_client tenant stored.payload.client_id) w utf8
      known live h refl)
revoke_peeked-tokens env req stored (err e) w utf8 known live h = inl (ground arith)

after_peek-tokens :
    (env : Env) (req : RevokeRequest) (seen : Result RefreshTokenPayload) (w : World)
    → IsUtf8 env.platform
    → (peek_refresh env.now req.token w.tokens).0 ≡ seen
    → ((or_silently seen (revoke_peeked env req) w).1.tokens ≡ w.tokens) ⊎ IsRevoker env req w
after_peek-tokens env req (err e) w utf8 h = inl refl
after_peek-tokens env req (ok p) w utf8 h =
    let (stored, known, carries, live) = peek_refresh_sound env.now req.token w.tokens p h in
    rw (← carries) (
      revoke_peeked-tokens env req stored (env.config stored.payload.tenant_id) w utf8 known
        (rw carries live) refl)

-- Over an encoding that keeps the laws of UTF-8, revokeToken either leaves the token store as it
-- is, or the caller is the registered owner of the stored live token, anonymous only for a public
-- client.
pub revoke_token-IsRevoker :
    (env : Env) (req : RevokeRequest) (w : World)
    → IsUtf8 env.platform
    → ((revoke_token env req w).1.tokens ≡ w.tokens) ⊎ IsRevoker env req w
unfolding revoke_token
revoke_token-IsRevoker env req w utf8 = by_hint (is_access_token req.token_type_hint)
  where
    by_hint :
        (b : Bool)
        → (((if b
                then pure tt
                else (attempt (with_tokens (peek_refresh env.now req.token)) >>= λ peek.
                    or_silently peek (revoke_peeked env req)))
              w).1.tokens
            ≡ w.tokens)
          ⊎ IsRevoker env req w
    by_hint true = inl refl
    by_hint false =
        rw (peek_refresh-unchanged env.now req.token w.tokens)
          (after_peek-tokens env req (peek_refresh env.now req.token w.tokens).0 w utf8 refl)

-- A request that does not hint at an access token and has the accepted credentials of the
-- registered client of a stored, unconsumed, live token succeeds and is audited, and no later
-- presentation of the token returns a payload.
pub revoke_token-owner :
    (env : Env) (req : RevokeRequest) (w : World) (p : RefreshTokenPayload) (tenant : TenantConfig)
    (client : ClientConfig) (later : ℕ) (window : Option ℕ) (q : RefreshTokenPayload)
    → is_access_token req.token_type_hint ≡ false
    → w.tokens.refresh req.token ≡ some (record { payload = p; consumed_at = none })
    → env.now < p.expires_at
    → env.config p.tenant_id ≡ ok tenant
    → find_client tenant p.client_id ≡ some client
    → has_credentials client.type req.client_id req.client_secret ≡ true
    → req.client_id ≡ some p.client_id
    → verify_client_credentials env.platform client req.client_secret ≡ none
    → ((revoke_token env req w).0 ≡ ok tt)
      × ((revoke_token env req w).1.audit
          ≡ w.audit
            ++ token_revoked p.tenant_id
                (some p.client_id)
                p.subject_id
                (some p.family)
                "client_revoke"
                env.now
              ∷ [])
      × ((consume_refresh later req.token window (revoke_token env req w).1.tokens).0 ≢ ok q)
unfolding revoke_token revoke_peeked revoke_client revoke_owned presented_check consume_and_audit
    peek_refresh consume_refresh
revoke_token-owner env req w p tenant client later window q hint known live cfg found has who auth =
    (
      ground (arith, eq_refl p.client_id),
      ground (arith, eq_refl p.client_id),
      λ r. ground (arith, eq_refl p.client_id, eq_refl req.token),
    )
