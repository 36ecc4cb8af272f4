-- ===== src/TokenStore/Refresh.antt =====
-- Rotation: a refresh token is consumed once, and reuse within the window ends its family. About
-- packages/openauth/src/adapters/memory/token-store.ts.
use openauth.Prelude.{
  ℕ, ◌+◌, ◌≤◌, ◌<◌, String, false, Option, none, some, ◌≡◌, arith, eq_iff, eq_refl, ◌==◌, leb,
  get_or_else, if◌then◌else◌, remove_where,
}
use openauth.Types.Error.{ok, err}
use openauth.Types.Token.{RefreshTokenPayload}
use openauth.TokenStore.{
  StoredRefresh, TokenStore, refresh_unknown, refresh_consumed, reuse_detected,
  default_reuse_window_ms, save_refresh, consume_refresh, revoke_family,
}

-- The window that a call of `consumeRefresh` uses.
abbrev pub window : Option ℕ → ℕ
window w = get_or_else w default_reuse_window_ms

-- A saved live refresh token is returned once, and a second presentation is a detected reuse
-- within the window after the first and an already consumed token later.
pub consume_refresh_twice :
    (now later : ℕ) (w v : Option ℕ) (r : String) (p : RefreshTokenPayload) (s : TokenStore)
    → now < p.expires_at
    → let t = (save_refresh r p s).1 in
      ((consume_refresh now r w t).0 ≡ ok p)
      × ((consume_refresh later r v (consume_refresh now r w t).1).0
          ≡ (if leb later (now + window v) then err (reuse_detected p) else err refresh_consumed))
unfolding consume_refresh save_refresh revoke_family
consume_refresh_twice now later w v r p s h = (ground (arith, eq_refl r), ground (arith, eq_refl r))

-- A presentation that is a reuse within the window leaves no token of the family, and every token
-- of another family as it was.
pub consume_refresh-reuse :
    (now at : ℕ) (w : Option ℕ) (r : String) (stored : StoredRefresh) (s : TokenStore)
    → s.refresh r ≡ some stored
    → stored.consumed_at ≡ some at
    → now ≤ at + window w
    → (t : String)
    → (consume_refresh now r w s).1.refresh t
      ≡ remove_where s.refresh (λ x. x.payload.family == stored.payload.family) t
unfolding consume_refresh revoke_family
consume_refresh-reuse now at w r stored s e c h t = ground arith

-- When a saved, live token is rotated into a descendant (another token of its family) and then
-- presented again within the window, both tokens are unknown afterwards.
pub consume_refresh-descendant :
    (now later last : ℕ) (w v u : Option ℕ) (r d : String) (p q : RefreshTokenPayload)
    (s : TokenStore)
    → now < p.expires_at
    → q.family ≡ p.family
    → later ≤ now + window v
    → (r == d) ≡ false
    → let rotated = (save_refresh d q (consume_refresh now r w (save_refresh r p s).1).1).1 in
      let ended = (consume_refresh later r v rotated).1 in
      ((consume_refresh last d u ended).0 ≡ err refresh_unknown)
      × ((consume_refresh last r u ended).0 ≡ err refresh_unknown)
unfolding consume_refresh save_refresh revoke_family
consume_refresh-descendant now later last w v u r d p q s h f k ne = (
  ground (arith, eq_refl r, eq_refl d, eq_iff r d, eq_iff d r, eq_iff q.family p.family),
  ground (arith, eq_refl r, eq_iff r d, eq_iff d r, eq_refl p.family),
)

-- A presentation never returns the payload of a token that is expired, consumed or not stored, and
-- what it returns is what is stored.
pub consume_refresh_sound :
    (now : ℕ) (w : Option ℕ) (r : String) (s : TokenStore) (p : RefreshTokenPayload)
    → (consume_refresh now r w s).0 ≡ ok p
    → (s.refresh r ≡ some (record { payload = p; consumed_at = none })) × (now < p.expires_at)
unfolding consume_refresh
consume_refresh_sound now w r s p h = (ground arith, ground arith)
