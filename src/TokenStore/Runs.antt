-- ===== src/TokenStore/Runs.antt =====
-- Any interleaving of requests is a sequence of calls on the store, at any clock readings. About
-- packages/openauth/src/adapters/memory/token-store.ts.
use openauth.Prelude.{
  ℕ, ◌+◌, ◌≤◌, String, arith, eq_iff, eq_refl, Option, none, some, ◌==◌, List, [], ◌∷◌,
  if◌then◌else◌, is_some,
}
use openauth.Types.Error.{Result, ok, err}
use openauth.Types.Token.{RefreshTokenPayload}
use openauth.TokenStore.{
  StoredRefresh, TokenStore, save_code, consume_code, save_refresh, consume_refresh, peek_refresh,
  revoke_family, revoke_by_subject, record_dpop_jti,
}

pub data Call : Type 0 where
  saves_code : String → String → ℕ → Call
  consumes_code : String → Call
  saves_refresh : String → RefreshTokenPayload → Call
  consumes_refresh : String → Option ℕ → Call
  peeks : String → Call
  revokes_family : String → Call
  revokes_subject : String → String → Call
  records_jti : String → ℕ → Call

unfoldable pub after : ℕ → Call → TokenStore → TokenStore
after now (saves_code c x ttl) s = (save_code now c x ttl s).1
after now (consumes_code c) s = (consume_code now c s).1
after now (saves_refresh r p) s = (save_refresh r p s).1
after now (consumes_refresh r w) s = (consume_refresh now r w s).1
after now (peeks r) s = (peek_refresh now r s).1
after now (revokes_family f) s = (revoke_family f s).1
after now (revokes_subject t u) s = (revoke_by_subject t u s).1
after now (records_jti j ttl) s = (record_dpop_jti now j ttl s).1

unfoldable pub run : TokenStore → List (ℕ × Call) → TokenStore
run s [] = s
run s ((now, c) ∷ cs) = run (after now c s) cs

abbrev is_ok {ℓ} : {A : Type ℓ} → Result A → ℕ
is_ok (ok a) = 1
is_ok (err e) = 0

module _ (k : String) where
  -- 1 for a call of `consumeCode` (`consumeRefresh`) on the key that returned a value
  abbrev code_won : ℕ → Call → TokenStore → ℕ
  code_won now (consumes_code c) s = if c == k then is_ok (consume_code now c s).0 else 0
  code_won now _ s = 0

  abbrev refresh_won : ℕ → Call → TokenStore → ℕ
  refresh_won now (consumes_refresh r w) s =
      if r == k then is_ok (consume_refresh now r w s).0 else 0
  refresh_won now _ s = 0

  -- 1 for a call of `saveCode` (`saveRefresh`) on the key
  abbrev code_saved : Call → ℕ
  code_saved (saves_code c x ttl) = if c == k then 1 else 0
  code_saved _ = 0

  abbrev refresh_saved : Call → ℕ
  refresh_saved (saves_refresh r p) = if r == k then 1 else 0
  refresh_saved _ = 0

  pub codes_won : TokenStore → List (ℕ × Call) → ℕ
  codes_won s [] = 0
  codes_won s ((now, c) ∷ cs) = code_won now c s + codes_won (after now c s) cs

  pub codes_saved : List (ℕ × Call) → ℕ
  codes_saved [] = 0
  codes_saved ((now, c) ∷ cs) = code_saved c + codes_saved cs

  pub refreshes_won : TokenStore → List (ℕ × Call) → ℕ
  refreshes_won s [] = 0
  refreshes_won s ((now, c) ∷ cs) = refresh_won now c s + refreshes_won (after now c s) cs

  pub refreshes_saved : List (ℕ × Call) → ℕ
  refreshes_saved [] = 0
  refreshes_saved ((now, c) ∷ cs) = refresh_saved c + refreshes_saved cs

  -- what can still be consumed under the key
  abbrev pub code_left : TokenStore → ℕ
  code_left s = if is_some (s.codes k) then 1 else 0

  abbrev unconsumed : Option StoredRefresh → ℕ
  unconsumed none = 0
  unconsumed (some r) = if is_some r.consumed_at then 0 else 1

  abbrev pub refresh_left : TokenStore → ℕ
  refresh_left s = unconsumed (s.refresh k)

  code_step :
      (now : ℕ) (c : Call) (s : TokenStore)
      → code_won now c s + code_left (after now c s) ≤ code_left s + code_saved c
  unfolding after save_code consume_code save_refresh consume_refresh peek_refresh revoke_family
      revoke_by_subject record_dpop_jti
  code_step now (saves_code c x ttl) s = ground (arith, eq_iff c k)
  code_step now (consumes_code c) s = ground (arith, eq_iff c k, eq_refl k)
  code_step now (consumes_refresh r w) s = ground arith
  code_step now (records_jti j ttl) s = ground arith
  code_step now (peeks r) s = ground arith
  code_step now _ s = omega arith

  refresh_step :
      (now : ℕ) (c : Call) (s : TokenStore)
      → refresh_won now c s + refresh_left (after now c s) ≤ refresh_left s + refresh_saved c
  unfolding after save_code consume_code save_refresh consume_refresh peek_refresh revoke_family
      revoke_by_subject record_dpop_jti
  refresh_step now (saves_code c x ttl) s = ground arith
  refresh_step now (consumes_code c) s = ground arith
  refresh_step now (saves_refresh r p) s = ground (arith, eq_iff r k)
  refresh_step now (consumes_refresh r w) s = ground (arith, eq_iff r k, eq_refl k)
  refresh_step now _ s = ground arith

  codes_won-left :
      (s : TokenStore) (cs : List (ℕ × Call))
      → codes_won s cs + code_left (run s cs) ≤ code_left s + codes_saved cs
  unfolding codes_won codes_saved run
  codes_won-left s [] = omega arith
  codes_won-left s ((now, c) ∷ cs) =
      omega (arith, code_step now c s, codes_won-left (after now c s) cs)

  refreshes_won-left :
      (s : TokenStore) (cs : List (ℕ × Call))
      → refreshes_won s cs + refresh_left (run s cs) ≤ refresh_left s + refreshes_saved cs
  unfolding refreshes_won refreshes_saved run
  refreshes_won-left s [] = omega arith
  refreshes_won-left s ((now, c) ∷ cs) =
      omega (arith, refresh_step now c s, refreshes_won-left (after now c s) cs)

  -- In every sequence of store calls, consumeCode returns a code's ciphertext at most as often as
  -- the code was saved, counting a row held at the start.
  pub codes_won-le :
      (s : TokenStore) (cs : List (ℕ × Call)) → codes_won s cs ≤ code_left s + codes_saved cs
  codes_won-le s cs = omega (arith, codes_won-left s cs)

  -- In every sequence of store calls, consumeRefresh accepts a refresh token at most as often as
  -- it was saved, counting an unconsumed row held at the start.
  pub refreshes_won-le :
      (s : TokenStore) (cs : List (ℕ × Call))
      → refreshes_won s cs ≤ refresh_left s + refreshes_saved cs
  refreshes_won-le s cs = omega (arith, refreshes_won-left s cs)
