-- ===== src/TokenStore/Revocation.antt =====
-- `revokeBySubject` and `revokeFamily`: exactly the tokens meant are gone. About
-- packages/openauth/src/adapters/memory/token-store.ts.
use openauth.Prelude.{ℕ, String, ◌≡◌, ◌&&◌, ◌==◌, Option, some, arith, if◌then◌else◌}
use openauth.Types.Error.{err}
use openauth.TokenStore.{
  StoredRefresh, TokenStore, refresh_unknown, consume_refresh, revoke_by_subject, revoke_family,
}

module _ (t : String) (stored : StoredRefresh) (now : ℕ) (w : Option ℕ) (s : TokenStore)
    (kept : s.refresh t ≡ some stored) where
  -- After revokeBySubject, consumeRefresh of a stored token answers unknown if the token is that
  -- tenant's subject's, and what it would have answered otherwise.
  pub consume_refresh-revoke_by_subject :
      (tenant_id subject_id : String)
      → (consume_refresh now t w (revoke_by_subject tenant_id subject_id s).1).0 ≡ (
          if stored.payload.tenant_id == tenant_id && stored.payload.subject_id == subject_id
          then err refresh_unknown
          else (consume_refresh now t w s).0)
  unfolding consume_refresh revoke_by_subject
  consume_refresh-revoke_by_subject tenant_id subject_id = ground arith

  pub consume_refresh-revoke_family :
      (family : String)
      → (consume_refresh now t w (revoke_family family s).1).0 ≡ (
          if stored.payload.family == family
          then err refresh_unknown
          else (consume_refresh now t w s).0)
  unfolding consume_refresh revoke_family
  consume_refresh-revoke_family family = ground arith
