-- ===== src/TokenStore/Jtis.antt =====
-- Replay protection for DPoP proofs. About packages/openauth/src/adapters/memory/token-store.ts.
use openauth.Prelude.{
  ℕ, ◌+◌, ◌≤◌, String, ◌≡◌, arith, eq_iff, eq_refl, leb, if◌then◌else◌, ◌==◌, false,
}
use openauth.Types.Error.{ok, err}
use openauth.TokenStore.{TokenStore, jti_replayed, record_dpop_jti}

-- A recorded jti is refused until its lifetime is over, also after another jti was recorded in
-- between, and is free from that moment on.
pub record_dpop_jti_replay :
    (now mid later ttl ttl' ttl'' : ℕ) (jti other : String) (s : TokenStore)
    → (record_dpop_jti now jti ttl s).0 ≡ ok tt
    → mid ≤ later
    → (other == jti) ≡ false
    → (record_dpop_jti later jti ttl''
        (record_dpop_jti mid other ttl' (record_dpop_jti now jti ttl s).1).1).0
      ≡ (if leb (now + ttl) later then ok tt else err (jti_replayed jti))
unfolding record_dpop_jti
record_dpop_jti_replay now mid later ttl ttl' ttl'' jti other s h k ne =
    ground (arith, eq_refl jti, eq_refl other, eq_iff other jti)
