-- ===== src/Refresh/Once.antt =====
-- Rotation as clients see it: a refresh token buys tokens once, and a second use is theft. About
-- packages/openauth/src/domain/refresh.ts.
use openauth.Prelude.{
  ℕ, ◌≤◌, ◌+◌, ◌<◌, String, Option, none, some, [], ◌∷◌, ◌++◌, ◌<>◌, ◌==◌, if◌then◌else◌, ◌≡◌, ◌≢◌,
  refl, arith, eq_iff, eq_refl,
}
use openauth.Types.Error.{Result, invalid_grant, ok, err}
use openauth.Types.Tenant.{TenantConfig}
use openauth.Types.Token.{RefreshTokenPayload, TokenResponse}
use openauth.Types.Audit.{refresh_reuse_detected}
use openauth.Crypto.{IsUtf8}
use openauth.TokenStore.{
  StoredRefresh, TokenStore, consume_refresh, save_refresh, revoke_family, reuse_detected,
}
use openauth.TokenStore.Refresh.{window}
use openauth.World.{Env, World}
use openauth.Refresh.{
  RefreshGrantRequest, gate, refresh_gated, consume, consumed_or_audited, audited_failure,
  refresh_tokens,
}
use openauth.Refresh.Sound.{IsRefreshed, refresh_tokens-IsRefreshed, gate-unchanged}

consume_refresh-row :
    (now : ℕ) (window : Option ℕ) (r fresh : String) (p q : RefreshTokenPayload) (s : TokenStore)
    → s.refresh r ≡ some (record { payload = p; consumed_at = none })
    → now < p.expires_at
    → fresh ≢ r
    → (save_refresh fresh q (consume_refresh now r window s).1).1.refresh r
      ≡ some (record { payload = p; consumed_at = some now })
unfolding consume_refresh save_refresh
consume_refresh-row now window r fresh p q s h live ne = ground (arith, eq_iff fresh r, eq_refl r)

IsRefreshed-row :
    (env : Env) (req : RefreshGrantRequest) (w w' : World) (r : TokenResponse)
    → env.new_refresh_token ≢ req.refresh_token
    → IsRefreshed env req w w' r
    → (p : RefreshTokenPayload) × (w'.tokens.refresh req.refresh_token
        ≡ some (record { payload = p; consumed_at = some env.now }))
IsRefreshed-row env req w w' r ne g = (
  g.payload,
  rw (g.final, g.minted.stored, g.consumed)
      (consume_refresh-row env.now env.reuse_window_ms req.refresh_token env.new_refresh_token
        g.payload _ w.tokens g.unconsumed g.acceptable.live ne),
)

consumed_once :
    (t : TokenStore) (r r' : String) (p q : RefreshTokenPayload) (at : ℕ)
    → r ≡ r'
    → t.refresh r' ≡ some (record { payload = p; consumed_at = some at })
    → t.refresh r ≢ some (record { payload = q; consumed_at = none })
consumed_once t r r' p q at e h k = ground arith

-- Over encodings that keep the laws of UTF-8, after a request that rotated a refresh token into
-- another one, no later request that presents the old token succeeds, whoever asks and whenever.
pub refresh_tokens_twice :
    (env later : Env) (req again : RefreshGrantRequest) (w : World) (r s : TokenResponse)
    → IsUtf8 env.platform
    → IsUtf8 later.platform
    → env.new_refresh_token ≢ req.refresh_token
    → again.refresh_token ≡ req.refresh_token
    → (refresh_tokens env req w).0 ≡ ok r
    → (refresh_tokens later again (refresh_tokens env req w).1).0 ≢ ok s
refresh_tokens_twice env later req again w r s utf8 utf8' ne same first second =
    let w1 : World = (refresh_tokens env req w).1 in
    let (p, row) =
      IsRefreshed-row env req w w1 r ne (refresh_tokens-IsRefreshed env req w r utf8 first) in
    let g = refresh_tokens-IsRefreshed later again w1 s utf8' second in
    consumed_once w1.tokens again.refresh_token req.refresh_token p g.payload env.now same row
      g.unconsumed

consume-reuse :
    (env : Env) (req : RefreshGrantRequest) (w : World) (p : RefreshTokenPayload)
    (stored : StoredRefresh) (at : ℕ)
    → w.tokens.refresh req.refresh_token ≡ some stored
    → stored.consumed_at ≡ some at
    → env.now ≤ at + window env.reuse_window_ms
    → consume env req p w ≡ (
      err (reuse_detected stored.payload),
      record w {
        tokens = (revoke_family stored.payload.family w.tokens).1;
        audit =
            w.audit
            ++ refresh_reuse_detected p.tenant_id p.client_id stored.payload.family env.now ∷ [];
      },
    )
unfolding consume consume_refresh consumed_or_audited audited_failure
consume-reuse env req w p stored at known spent h = ground arith

-- The refusal of a reuse: the family of the token is wiped out, with nothing but its rows, and the
-- reuse is audited. About the row of one token.
pub record IsReuseRefused (env : Env) (p : RefreshTokenPayload) (stored row : StoredRefresh)
    (t : String) (w w' : World) (answer : Result TokenResponse) : Type 0 where
  pub answered :
      answer
      ≡ err (
          invalid_grant ("refresh token reuse detected (family=" <> stored.payload.family <> ")") (
            some (record {
              family = stored.payload.family;
              tenant_id = stored.payload.tenant_id;
              subject_id = stored.payload.subject_id;
            })))
  pub family :
      w'.tokens.refresh t ≡ (if row.payload.family == stored.payload.family then none else some row)
  pub codes : w'.tokens.codes ≡ w.tokens.codes
  pub jtis : w'.tokens.dpop_jtis ≡ w.tokens.dpop_jtis
  pub sessions : w'.sessions ≡ w.sessions
  pub methods : w'.methods ≡ w.methods
  pub audited :
      w'.audit
      ≡ w.audit ++ refresh_reuse_detected p.tenant_id p.client_id stored.payload.family env.now ∷ []

-- A consumed refresh token that comes back within the reuse window, in a request that passes the
-- gate, is refused as a reuse, which is audited; every stored refresh token of its family is gone,
-- every other one is as it was, and nothing else changes.
pub refresh_tokens-reuse :
    (env : Env) (req : RefreshGrantRequest) (w : World) (p : RefreshTokenPayload)
    (tenant : TenantConfig) (stored row : StoredRefresh) (at : ℕ) (t : String)
    → (gate env req w).0 ≡ ok (p, tenant)
    → w.tokens.refresh req.refresh_token ≡ some stored
    → stored.consumed_at ≡ some at
    → env.now ≤ at + window env.reuse_window_ms
    → w.tokens.refresh t ≡ some row
    → IsReuseRefused env p stored row t w (refresh_tokens env req w).1 (refresh_tokens env req w).0
unfolding refresh_tokens refresh_gated revoke_family
refresh_tokens-reuse env req w p tenant stored row at t passed known spent h held =
    rw (passed, gate-unchanged env req w, consume-reuse env req w p stored at known spent h)
      (record {
        answered = refl;
        family = ground (arith, held);
        codes = refl;
        jtis = refl;
        sessions = refl;
        methods = refl;
        audited = refl;
      })
