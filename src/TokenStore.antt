-- ===== src/TokenStore.antt =====
-- packages/openauth/src/adapters/memory/token-store.ts: authorization codes, refresh tokens with
-- reuse detection, and the `jti` values of DPoP proofs. Every method is one turn of the event loop,
-- so it is one function from the store to its result and the new store; `now` is what the store's
-- clock reads. A number that a caller passes as a lifetime is a natural number, so `ttl <= 0` is
-- `ttl == 0`.
pub mod Codes
pub mod Refresh
pub mod Revocation
pub mod Jtis
pub mod Runs
use openauth.Prelude.{
  ℕ, ◌+◌, ◌*◌, ◌-◌, String, Bool, true, false, Option, none, some, ◌||◌, ◌&&◌, ◌==◌, ltb, leb, eqb,
  if◌then◌else◌, ◌<>◌, Dict, empty, put, remove, remove_where, is_some, get_or_else, to_decimal,
}
use openauth.Types.Error.{AuthError, ReuseSignal, Result, ok, err, internal_error, invalid_grant}
use openauth.Types.Token.{RefreshTokenPayload}

-- domain/authorize.ts
abbrev pub auth_code_ttl_ms : ℕ
auth_code_ttl_ms = 60 * 1000

pub record StoredCode : Type 0 where
  pub ciphertext : String
  pub expires_at : ℕ

pub record StoredRefresh : Type 0 where
  pub payload : RefreshTokenPayload
  pub consumed_at : Option ℕ

pub record TokenStore : Type 0 where
  pub codes : Dict StoredCode
  pub refresh : Dict StoredRefresh
  pub dpop_jtis : Dict ℕ

abbrev pub new_store : TokenStore
new_store = record { codes = empty; refresh = empty; dpop_jtis = empty }

-- The texts of the errors.
abbrev pub ttl_refused : ℕ → AuthError
ttl_refused ttl = internal_error (
    "saveCode: ttl "
    <> to_decimal ttl
    <> " outside (0, 60000] (auth-code TTL is fixed at 60s by OAuth 2.1 BCP)")

abbrev pub code_unknown : AuthError
code_unknown = invalid_grant "auth code unknown or already consumed" none

abbrev pub code_expired : AuthError
code_expired = invalid_grant "auth code expired" none

abbrev pub refresh_unknown : AuthError
refresh_unknown = invalid_grant "refresh token unknown" none

abbrev pub refresh_expired : AuthError
refresh_expired = invalid_grant "refresh token expired" none

abbrev pub refresh_consumed : AuthError
refresh_consumed = invalid_grant "refresh token already consumed" none

abbrev pub reuse_detected : RefreshTokenPayload → AuthError
reuse_detected p =
    invalid_grant ("refresh token reuse detected (family=" <> p.family <> ")")
      (some (record { family = p.family; tenant_id = p.tenant_id; subject_id = p.subject_id }))

abbrev pub jti_replayed : String → AuthError
jti_replayed jti = invalid_grant ("dpop jti \"" <> jti <> "\" replayed") none

module _ (now : ℕ) where
  unfoldable pub save_code : String → String → ℕ → TokenStore → Result (Unit {0}) × TokenStore
  save_code code ciphertext ttl s =
      if eqb ttl 0 || ltb auth_code_ttl_ms ttl then (err (ttl_refused ttl), s) else (
        ok tt,
        record s {
          codes = put s.codes code (record { ciphertext = ciphertext; expires_at = now + ttl });
        },
      )

  -- The row is deleted before the expiry test, so an expired code is gone too.
  take_code : Option StoredCode → String → TokenStore → Result String × TokenStore
  take_code none code s = (err code_unknown, s)
  take_code (some stored) code s =
      let s' = record s { codes = remove s.codes code } in
      if leb stored.expires_at now then (err code_expired, s') else (ok stored.ciphertext, s')

  unfoldable pub consume_code : String → TokenStore → Result String × TokenStore
  unfolding take_code
  consume_code code s = take_code (s.codes code) code s

unfoldable pub save_refresh :
    String → RefreshTokenPayload → TokenStore → Result (Unit {0}) × TokenStore
save_refresh refresh payload s = (
  ok tt,
  record s { refresh = put s.refresh refresh (record { payload = payload; consumed_at = none }) },
)

unfoldable pub revoke_family : String → TokenStore → Result (Unit {0}) × TokenStore
revoke_family family s =
    (ok tt, record s { refresh = remove_where s.refresh (λ r. r.payload.family == family) })

unfoldable pub revoke_by_subject : String → String → TokenStore → Result (Unit {0}) × TokenStore
revoke_by_subject tenant_id subject_id s = (
  ok tt,
  record s {
    refresh =
        remove_where s.refresh
          (λ r. r.payload.tenant_id == tenant_id && r.payload.subject_id == subject_id);
  },
)

abbrev pub default_reuse_window_ms : ℕ
default_reuse_window_ms = 60000

module _ (now : ℕ) where
  -- `now - consumedAt <= reuseWindow`, by an addition, for a clock that may have gone backwards
  present : ℕ → Option StoredRefresh → String → TokenStore → Result RefreshTokenPayload × TokenStore
  present window none refresh s = (err refresh_unknown, s)
  present window (some stored) refresh s = elim stored.consumed_at [
    | some at ↦
        if leb now (at + window)
        then (err (reuse_detected stored.payload), (revoke_family stored.payload.family s).1)
        else (err refresh_consumed, s)
    | none ↦ if leb stored.payload.expires_at now then (err refresh_expired, s) else (
      ok stored.payload,
      record s { refresh = put s.refresh refresh (record stored { consumed_at = some now }) },
    )
  ]

  unfoldable pub consume_refresh :
      String → Option ℕ → TokenStore → Result RefreshTokenPayload × TokenStore
  unfolding present
  consume_refresh refresh reuse_window_ms s =
      present (get_or_else reuse_window_ms default_reuse_window_ms) (s.refresh refresh) refresh s

  unfoldable pub peek_refresh : String → TokenStore → Result RefreshTokenPayload × TokenStore
  peek_refresh refresh s = elim (s.refresh refresh) [
    | none ↦ (err refresh_unknown, s)
    | some stored ↦
        if leb stored.payload.expires_at now
        then (err refresh_expired, s)
        else (ok stored.payload, s)
  ]

  unfoldable pub record_dpop_jti : String → ℕ → TokenStore → Result (Unit {0}) × TokenStore
  record_dpop_jti jti ttl_ms s =
      let swept = record s { dpop_jtis = remove_where s.dpop_jtis (λ exp. leb exp now) } in
      if is_some (swept.dpop_jtis jti)
      then (err (jti_replayed jti), swept)
      else (ok tt, record swept { dpop_jtis = put swept.dpop_jtis jti (now + ttl_ms) })
