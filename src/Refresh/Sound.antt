-- ===== src/Refresh/Sound.antt =====
-- What `refreshTokens` guarantees on success, and what a refused request leaves alone. About
-- packages/openauth/src/domain/refresh.ts.
use openauth.Prelude.{
  ℕ, ◌<◌, String, false, Option, none, some, List, ◌==◌, if◌then◌else◌, words, eq_refl, ◌≡◌, ◌≢◌,
  refl, arith, eq_iff, ◌⊎◌, inl, inr, ap, ◌∙◌,
}
use openauth.Types.Error.{Result, ok, err, or_fail, or_fail-eq-ok, Check}
use openauth.Types.Effect.{pure, lift, check, continue, ◌>>=◌, ◌>>◌, after_bind}
use openauth.Types.Effect.Keeps.{Keeps, keeps_rules}
use openauth.Types.Tenant.{TenantConfig, find_client}
use openauth.Types.Token.{RefreshTokenPayload, TokenResponse}
use openauth.Crypto.{IsUtf8}
use openauth.TokenStore.{StoredRefresh, TokenStore, peek_refresh, consume_refresh}
use openauth.TokenStore.Refresh.{consume_refresh_sound}
use openauth.Types.Audit.{token_refreshed}
use openauth.World.{Env, World, with_tokens, safe_audit}
use openauth.Token.Mint.{mint_tokens}
use openauth.Token.Mint.Laws.{IsMinted, mint_tokens-IsMinted}
use openauth.Refresh.{
  RefreshGrantRequest, refresh_invalid, requested_scopes, validate_requested_scopes, owner_check,
  presenting_check, gate_checks, gate_peeked, gate, consume, consumed_or_audited, audited_failure,
  refreshed_args, rotate, refresh_gated, refresh_tokens,
}
use openauth.Refresh.Gate.{IsAcceptable, gate_checks_sound}

check-unchanged : {S : Type 0} (c : Check) (s : S) → (check c s).1 ≡ s
check-unchanged none s = refl
check-unchanged (some e) s = refl

pub peek_refresh-unchanged : (now : ℕ) (r : String) (s : TokenStore) → (peek_refresh now r s).1 ≡ s
unfolding peek_refresh
peek_refresh-unchanged now r s = ground arith

pub peek_refresh_sound :
    (now : ℕ) (r : String) (s : TokenStore) (p : RefreshTokenPayload)
    → (peek_refresh now r s).0 ≡ ok p
    → (stored : StoredRefresh) × (s.refresh r ≡ some stored)
      × (stored.payload ≡ p)
      × (now < p.expires_at)
unfolding peek_refresh
peek_refresh_sound now r s p h = ground arith

module _ (env : Env) (req : RefreshGrantRequest) where
  Keeps-peek_refresh :
      (w : World) → Keeps (λ v. v ≡ w) (with_tokens (peek_refresh env.now req.refresh_token))
  Keeps-peek_refresh w = record {
    at = λ v h.
        ap (λ s. record v { tokens = s })
          (peek_refresh-unchanged env.now req.refresh_token v.tokens)
        ∙ h;
  }

  pub gate-unchanged : (w : World) → (gate env req w).1 ≡ w
  unfolding gate gate_peeked gate_checks
  gate-unchanged w =
      let k : Keeps (λ v. v ≡ w) (gate env req) =
        search (keeps_rules, Keeps-peek_refresh) depth 9 in
      k.at w refl

  module _ (utf8 : IsUtf8 env.platform) where
    -- The gate lets a request through only for the stored and live token of a configured tenant and
    -- client, to that client authenticated, with the key the token is bound to, and for no scope that
    -- was not granted.
    gate_sound :
        (w : World) (p : RefreshTokenPayload) (tenant : TenantConfig)
        → (gate env req w).0 ≡ ok (p, tenant)
        → IsAcceptable env req w p tenant
    unfolding gate gate_peeked
    gate_sound w p tenant h =
        let P = λ (w' : World). IsAcceptable env req w p tenant in
        after_bind P (with_tokens (peek_refresh env.now req.refresh_token)) (gate_peeked env req) w
          (p, tenant) h
          λ peeked seen h1.
            let w1 : World = (with_tokens (peek_refresh env.now req.refresh_token) w).1 in
            after_bind P (lift (env.config peeked.tenant_id))
              (λ t. lift (or_fail refresh_invalid (find_client t peeked.client_id)) >>= λ client.
                gate_checks env req peeked t client >> pure (peeked, t))
              w1 (p, tenant) h1
              λ t configured h2.
                after_bind P (lift (or_fail refresh_invalid (find_client t peeked.client_id)))
                  (λ client. gate_checks env req peeked t client >> pure (peeked, t)) w1 (p, tenant)
                  h2
                  λ client found h3.
                    after_bind P (gate_checks env req peeked t client) (λ _. pure (peeked, t)) w1
                      (p, tenant) h3
                      λ checked passed h4.
                        let (stored, known, carries, live) =
                          peek_refresh_sound env.now req.refresh_token w.tokens peeked seen in
                        let registered =
                          or_fail-eq-ok refresh_invalid (find_client t peeked.client_id) client
                            found in
                        let (owner, bound, narrowing) =
                          gate_checks_sound env utf8 req peeked t client w1 registered passed in
                        let same_p : p ≡ peeked = ground arith in
                        let same_t : tenant ≡ t = ground arith in
                        rw (same_p, same_t)
                          record {
                            client = client;
                            stored = stored;
                            known = known;
                            carries = carries;
                            live = live;
                            configured = configured;
                            registered = registered;
                            owner = owner;
                            bound = bound;
                            narrowing = narrowing;
                          }

-- Why a token was refreshed, and into what.
pub record IsRefreshed (env : Env) (req : RefreshGrantRequest) (w w' : World) (r : TokenResponse)
    : Type 0 where
  pub payload : RefreshTokenPayload
  pub tenant : TenantConfig
  pub before : World
  pub made : World
  pub acceptable : IsAcceptable env req w payload tenant
  pub unconsumed :
      w.tokens.refresh req.refresh_token ≡ some (record { payload = payload; consumed_at = none })
  pub consumed :
      before.tokens ≡ (consume_refresh env.now req.refresh_token env.reuse_window_ms w.tokens).1
  pub marked :
      before.tokens.refresh req.refresh_token
      ≡ some (record { payload = payload; consumed_at = some env.now })
  -- all of the granted scopes where none is asked for
  pub scopes : List String
  pub asked : scopes ≡ (elim req.scope [
    | none ↦ payload.scopes
    | some requested ↦ if requested == "" then payload.scopes else words requested
  ])
  pub minted :
      IsMinted env
        (record {
          tenant = tenant;
          claim = payload.claim;
          tenant_id = payload.tenant_id;
          client_id = payload.client_id;
          method_id = payload.method_id;
          method_kind = payload.method_kind;
          scopes = scopes;
          audience = payload.audience;
          auth_time = some payload.auth_time;
          app_nonce = none;
          dpop_jkt = payload.dpop_jkt;
          claims_request = payload.claims_request;
          family = payload.family;
          skip_refresh = false;
        })
        before
        made
        r
  pub final : w'.tokens ≡ made.tokens

consume_refresh-marked :
    (now : ℕ) (window : Option ℕ) (r : String) (p : RefreshTokenPayload) (s : TokenStore)
    → s.refresh r ≡ some (record { payload = p; consumed_at = none })
    → now < p.expires_at
    → (consume_refresh now r window s).1.refresh r
      ≡ some (record { payload = p; consumed_at = some now })
unfolding consume_refresh
consume_refresh-marked now window r p s h live = ground (arith, eq_refl r)

requested_scopes_lem :
    (o : Option String) (granted : List String)
    → requested_scopes o granted ≡ (elim o [
      | none ↦ granted
      | some requested ↦ if requested == "" then granted else words requested
    ])
unfolding requested_scopes
requested_scopes_lem none granted = refl
requested_scopes_lem (some requested) granted = refl

module _ (env : Env) (req : RefreshGrantRequest) where
  consume_sound :
      (p q : RefreshTokenPayload) (w : World)
      → (consume env req p w).0 ≡ ok q
      → ((consume_refresh env.now req.refresh_token env.reuse_window_ms w.tokens).0 ≡ ok q)
        × ((consume env req p w).1.tokens
            ≡ (consume_refresh env.now req.refresh_token env.reuse_window_ms w.tokens).1)
  unfolding consume consumed_or_audited audited_failure
  consume_sound p q w h =
      by_result (consume_refresh env.now req.refresh_token env.reuse_window_ms w.tokens) h
    where
      by_result :
          (c : Result RefreshTokenPayload × TokenStore)
          → (consumed_or_audited env p c.0 (record w { tokens = c.1 })).0 ≡ ok q
          → (c.0 ≡ ok q)
            × ((consumed_or_audited env p c.0 (record w { tokens = c.1 })).1.tokens ≡ c.1)
      by_result (ok x, s) k = (ground arith, refl)
      by_result (err e, s) k = ground arith

  refresh_gated_sound :
      (p : RefreshTokenPayload) (tenant : TenantConfig) (w : World) (r : TokenResponse)
      → IsAcceptable env req w p tenant
      → (refresh_gated env req (p, tenant) w).0 ≡ ok r
      → IsRefreshed env req w (refresh_gated env req (p, tenant) w).1 r
  unfolding refresh_gated rotate
  refresh_gated_sound p tenant w r acceptable h =
      let P = λ (w' : World). IsRefreshed env req w w' r in
      after_bind P (consume env req p) (λ q. rotate env req q tenant) w r h
        λ q taken h1.
          let (c, spent) = consume_sound p q w taken in
          let (fresh, live) =
            consume_refresh_sound env.now env.reuse_window_ms req.refresh_token w.tokens q c in
          let same : p ≡ q = ground (arith, acceptable.known, acceptable.carries) in
          let before : World = (consume env req p w).1 in
          after_bind P (check (validate_requested_scopes req.scope q.scopes))
            (λ _. mint_tokens env (refreshed_args env req q tenant) >>= λ response.
              safe_audit (token_refreshed q.tenant_id q.client_id q.subject_id q.family env.now)
              >> pure response)
            before r h1
            λ checked within h2.
              let scoped = validate_requested_scopes req.scope q.scopes in
              let after : World = (check scoped before).1 in
              after_bind P (mint_tokens env (refreshed_args env req q tenant))
                (λ x.
                  safe_audit (token_refreshed q.tenant_id q.client_id q.subject_id q.family env.now)
                  >> pure x)
                after r h2
                λ response minted h3.
                  let same_r : r ≡ response = ground arith in
                  let used : after.tokens
                      ≡ (consume_refresh env.now req.refresh_token env.reuse_window_ms w.tokens).1 =
                    ap (λ (v : World). v.tokens) (check-unchanged scoped before) ∙ spent in
                  record {
                    payload = q;
                    tenant = tenant;
                    before = after;
                    made = (mint_tokens env (refreshed_args env req q tenant) after).1;
                    acceptable = rw (← same) acceptable;
                    unconsumed = fresh;
                    consumed = used;
                    marked =
                        ap (λ (t : TokenStore). t.refresh req.refresh_token) used
                        ∙ consume_refresh-marked env.now env.reuse_window_ms req.refresh_token q
                            w.tokens fresh live;
                    scopes = requested_scopes req.scope q.scopes;
                    asked = requested_scopes_lem req.scope q.scopes;
                    minted =
                        mint_tokens-IsMinted env (refreshed_args env req q tenant) after r
                          (rw same_r minted);
                    final = refl;
                  }

  -- Over an encoding that keeps the laws of UTF-8, when refreshTokens succeeds, the presented
  -- token was stored, unconsumed and live, its client asked (authenticated, or anonymous and
  -- public), with the bound key, for scopes within those granted; the token is consumed, and the
  -- new tokens keep tenant, client, claim, family, method, binding and time of authentication.
  pub refresh_tokens-IsRefreshed :
      (w : World) (r : TokenResponse)
      → IsUtf8 env.platform
      → (refresh_tokens env req w).0 ≡ ok r
      → IsRefreshed env req w (refresh_tokens env req w).1 r
  unfolding refresh_tokens
  refresh_tokens-IsRefreshed w r utf8 h =
      after_bind (λ w'. IsRefreshed env req w w' r) (gate env req) (refresh_gated env req) w r h
        λ (p, tenant) passed h1. rw (gate-unchanged env req w) (
          refresh_gated_sound p tenant w r (gate_sound env req utf8 w p tenant passed)
            (rw (← gate-unchanged env req w) h1))

  unburned :
      (g : Result (RefreshTokenPayload × TenantConfig)) (w : World)
      → IsUtf8 env.platform
      → (gate env req w).0 ≡ g
      → ((continue g (refresh_gated env req) w).1 ≡ w)
        ⊎ ((p : RefreshTokenPayload) × (tenant : TenantConfig) × IsAcceptable env req w p tenant)
  unburned (err e) w utf8 h = inl refl
  unburned (ok (p, tenant)) w utf8 h = inr (p, tenant, gate_sound env req utf8 w p tenant h)

  -- Over an encoding that keeps the laws of UTF-8, refreshTokens either leaves the whole state as
  -- it was, or the request was acceptable: known live token, configured tenant and client, owner
  -- authenticated, bound key presented, scopes within the grant.
  pub refresh_tokens-unburned :
      (w : World)
      → IsUtf8 env.platform
      → ((refresh_tokens env req w).1 ≡ w)
        ⊎ ((p : RefreshTokenPayload) × (tenant : TenantConfig) × IsAcceptable env req w p tenant)
  unfolding refresh_tokens
  refresh_tokens-unburned w utf8 =
      rw (gate-unchanged env req w) (unburned (gate env req w).0 w utf8 refl)

  -- A stored, live refresh token of a configured tenant, presented with a client_id other than its
  -- own, gets one and the same error and changes nothing, whatever that client, its secret and the
  -- rest of the request are.
  pub refresh_tokens-stranger :
      (w : World) (stored : StoredRefresh) (tenant : TenantConfig) (id : String)
      → w.tokens.refresh req.refresh_token ≡ some stored
      → env.now < stored.payload.expires_at
      → env.config stored.payload.tenant_id ≡ ok tenant
      → req.client_id ≡ some id
      → id ≢ stored.payload.client_id
      → refresh_tokens env req w ≡ (err refresh_invalid, w)
  unfolding refresh_tokens gate gate_peeked gate_checks owner_check presenting_check peek_refresh
  refresh_tokens-stranger w stored tenant id known live configured presents stranger =
      ground (arith, eq_iff id stored.payload.client_id)
