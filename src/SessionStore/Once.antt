-- ===== src/SessionStore/Once.antt =====
-- A flow, and a pushed request, is consumed once, whatever is called between. About
-- packages/openauth/src/adapters/memory/session-store.ts.
use openauth.Prelude.{
  ℕ, ◌+◌, ◌≤◌, String, List, [], ◌∷◌, ◌==◌, arith, eq_iff, eq_refl, if◌then◌else◌, is_some,
}
use openauth.Types.Error.{Result, ok, err}
use openauth.SessionStore.{
  SessionStore, save_flow, update_flow_method_state, read_flow, consume_flow, create_session,
  read_session, revoke_session, save_par, consume_par, save_scratch, read_scratch, delete_scratch,
}
use openauth.SessionStore.Ideal.{
  Call, saves_flow, updates_flow, reads_flow, consumes_flow, saves_par, consumes_par, call,
}

abbrev granted {ℓ} : {A : Type ℓ} → Result A → ℕ
granted (ok a) = 1
granted (err e) = 0

module _ (k : String) where
  -- 1 for a call of `consumeFlow` (`consumePar`) on the key that returned a record
  abbrev flow_won : ℕ → Call → SessionStore → ℕ
  flow_won now (consumes_flow j) s = if j == k then granted (consume_flow now j s).0 else 0
  flow_won now _ s = 0

  abbrev par_won : ℕ → Call → SessionStore → ℕ
  par_won now (consumes_par j) s = if j == k then granted (consume_par now j s).0 else 0
  par_won now _ s = 0

  abbrev flow_saved : Call → ℕ
  flow_saved (saves_flow j p ttl) = if j == k then 1 else 0
  flow_saved _ = 0

  abbrev par_saved : Call → ℕ
  par_saved (saves_par j p ttl) = if j == k then 1 else 0
  par_saved _ = 0

  pub flows_won : SessionStore → List (ℕ × Call) → ℕ
  flows_won s [] = 0
  flows_won s ((now, c) ∷ cs) = flow_won now c s + flows_won (call now c s).1 cs

  pub flows_saved : List (ℕ × Call) → ℕ
  flows_saved [] = 0
  flows_saved ((now, c) ∷ cs) = flow_saved c + flows_saved cs

  pub pars_won : SessionStore → List (ℕ × Call) → ℕ
  pars_won s [] = 0
  pars_won s ((now, c) ∷ cs) = par_won now c s + pars_won (call now c s).1 cs

  pub pars_saved : List (ℕ × Call) → ℕ
  pars_saved [] = 0
  pars_saved ((now, c) ∷ cs) = par_saved c + pars_saved cs

  abbrev pub flow_left : SessionStore → ℕ
  flow_left s = if is_some (s.flows k) then 1 else 0

  abbrev pub par_left : SessionStore → ℕ
  par_left s = if is_some (s.par k) then 1 else 0

  flow_step :
      (now : ℕ) (c : Call) (s : SessionStore)
      → flow_won now c s + flow_left (call now c s).1 ≤ flow_left s + flow_saved c
  unfolding call save_flow update_flow_method_state read_flow consume_flow create_session
      read_session revoke_session save_par consume_par save_scratch read_scratch delete_scratch
  flow_step now (saves_flow j p ttl) s = ground (arith, eq_iff j k)
  flow_step now (consumes_flow j) s = ground (arith, eq_iff j k, eq_refl k)
  flow_step now (updates_flow j x) s = ground (arith, eq_iff j k, eq_refl k)
  flow_step now (reads_flow j) s = ground (arith, eq_iff j k)
  flow_step now _ s = ground arith

  par_step :
      (now : ℕ) (c : Call) (s : SessionStore)
      → par_won now c s + par_left (call now c s).1 ≤ par_left s + par_saved c
  unfolding call save_flow update_flow_method_state read_flow consume_flow create_session
      read_session revoke_session save_par consume_par save_scratch read_scratch delete_scratch
  par_step now (saves_par j p ttl) s = ground (arith, eq_iff j k)
  par_step now (consumes_par j) s = ground (arith, eq_iff j k, eq_refl k)
  par_step now _ s = ground arith

  -- In every sequence of session store calls, consumeFlow returns a flow at most as often as it
  -- was saved, counting a row held at the start.
  pub flows_won-le :
      (s : SessionStore) (cs : List (ℕ × Call)) → flows_won s cs ≤ flow_left s + flows_saved cs
  unfolding flows_won flows_saved
  flows_won-le s [] = omega arith
  flows_won-le s ((now, c) ∷ cs) =
      omega (arith, flow_step now c s, flows_won-le (call now c s).1 cs)

  -- In every sequence of session store calls, consumePar returns a pushed request at most as
  -- often as it was saved, counting a row held at the start.
  pub pars_won-le :
      (s : SessionStore) (cs : List (ℕ × Call)) → pars_won s cs ≤ par_left s + pars_saved cs
  unfolding pars_won pars_saved
  pars_won-le s [] = omega arith
  pars_won-le s ((now, c) ∷ cs) = omega (arith, par_step now c s, pars_won-le (call now c s).1 cs)
