-- ===== src/SessionStore/Refines.antt =====
-- The in-memory session store of packages/openauth/src/adapters/memory/session-store.ts against its
-- specification, call by call and over every sequence of calls.
use openauth.Prelude.{ℕ, ◌≤◌, String, List, [], ◌∷◌, ◌≡◌, refl, arith, eq_iff}
use openauth.SessionStore.{
  SessionStore, save_flow, update_flow_method_state, read_flow, consume_flow, create_session,
  read_session, revoke_session, save_par, consume_par, save_scratch, read_scratch, delete_scratch,
}
use openauth.SessionStore.Ideal.{
  Call, saves_flow, updates_flow, reads_flow, consumes_flow, creates_session, reads_session,
  revokes_session, saves_par, consumes_par, saves_scratch, reads_scratch, deletes_scratch, Answer,
  call, ideal_call, Ideal, view, Agrees,
}

module _ (now : ℕ) (s : SessionStore) (i : Ideal) (a : Agrees now s i) where
  call_answer : (c : Call) → (call now c s).0 ≡ (ideal_call now c i).0
  unfolding call ideal_call save_flow update_flow_method_state read_flow consume_flow create_session
      read_session revoke_session save_par consume_par save_scratch read_scratch delete_scratch
  call_answer (saves_flow k p ttl) = ground arith
  call_answer (updates_flow k j) = ground (arith, a.flows now k (omega arith))
  call_answer (reads_flow k) = ground (arith, a.flows now k (omega arith))
  call_answer (consumes_flow k) = ground (arith, a.flows now k (omega arith))
  call_answer (creates_session k p ttl) = ground arith
  call_answer (reads_session k) = ground (arith, a.sessions now k (omega arith))
  call_answer (revokes_session k) = refl
  call_answer (saves_par k p ttl) = ground arith
  call_answer (consumes_par k) = ground (arith, a.pars now k (omega arith))
  call_answer (saves_scratch k v ttl) = ground arith
  call_answer (reads_scratch k) = ground (arith, a.scratches now k (omega arith))
  call_answer (deletes_scratch k) = refl

  call-flows :
      (c : Call) (t : ℕ) (j : String)
      → now ≤ t
      → (view (call now c s).1).flows t j ≡ (ideal_call now c i).1.flows t j
  unfolding call ideal_call view save_flow update_flow_method_state read_flow consume_flow
      create_session read_session revoke_session save_par consume_par save_scratch read_scratch
      delete_scratch
  call-flows (saves_flow k p ttl) t j h = ground (arith, eq_iff k j, a.flows t j h)
  call-flows (updates_flow k x) t j h = ground (arith, eq_iff k j, a.flows t j h)
  call-flows (reads_flow k) t j h = ground (arith, eq_iff k j, a.flows t j h)
  call-flows (consumes_flow k) t j h = ground (arith, eq_iff k j, a.flows t j h)
  call-flows _ t j h = ground (arith, a.flows t j h)

  call-sessions :
      (c : Call) (t : ℕ) (j : String)
      → now ≤ t
      → (view (call now c s).1).sessions t j ≡ (ideal_call now c i).1.sessions t j
  unfolding call ideal_call view save_flow update_flow_method_state read_flow consume_flow
      create_session read_session revoke_session save_par consume_par save_scratch read_scratch
      delete_scratch
  call-sessions (creates_session k p ttl) t j h = ground (arith, eq_iff k j, a.sessions t j h)
  call-sessions (reads_session k) t j h = ground (arith, eq_iff k j, a.sessions t j h)
  call-sessions (revokes_session k) t j h = ground (arith, eq_iff k j, a.sessions t j h)
  call-sessions _ t j h = ground (arith, a.sessions t j h)

  call-pars :
      (c : Call) (t : ℕ) (j : String)
      → now ≤ t
      → (view (call now c s).1).pars t j ≡ (ideal_call now c i).1.pars t j
  unfolding call ideal_call view save_flow update_flow_method_state read_flow consume_flow
      create_session read_session revoke_session save_par consume_par save_scratch read_scratch
      delete_scratch
  call-pars (saves_par k p ttl) t j h = ground (arith, eq_iff k j, a.pars t j h)
  call-pars (consumes_par k) t j h = ground (arith, eq_iff k j, a.pars t j h)
  call-pars _ t j h = ground (arith, a.pars t j h)

  call-scratches :
      (c : Call) (t : ℕ) (j : String)
      → now ≤ t
      → (view (call now c s).1).scratches t j ≡ (ideal_call now c i).1.scratches t j
  unfolding call ideal_call view save_flow update_flow_method_state read_flow consume_flow
      create_session read_session revoke_session save_par consume_par save_scratch read_scratch
      delete_scratch
  call-scratches (saves_scratch k v ttl) t j h = ground (arith, eq_iff k j, a.scratches t j h)
  call-scratches (reads_scratch k) t j h = ground (arith, eq_iff k j, a.scratches t j h)
  call-scratches (deletes_scratch k) t j h = ground (arith, eq_iff k j, a.scratches t j h)
  call-scratches _ t j h = ground (arith, a.scratches t j h)

  call-Agrees : (c : Call) → Agrees now (call now c s).1 (ideal_call now c i).1
  unfolding view
  call-Agrees c = record {
    flows = call-flows c;
    sessions = call-sessions c;
    pars = call-pars c;
    scratches = call-scratches c;
  }

Agrees-later :
    (now later : ℕ) (s : SessionStore) (i : Ideal) → now ≤ later → Agrees now s i → Agrees later s i
Agrees-later now later s i h a = record {
  flows = λ t k g. a.flows t k (omega arith);
  sessions = λ t k g. a.sessions t k (omega arith);
  pars = λ t k g. a.pars t k (omega arith);
  scratches = λ t k g. a.scratches t k (omega arith);
}

-- Calls at clock readings that do not go back.
abbrev pub InOrder : ℕ → List (ℕ × Call) → Type 0
InOrder now [] = Unit
InOrder now ((t, c) ∷ cs) = (now ≤ t) × InOrder t cs

unfoldable pub answers : SessionStore → List (ℕ × Call) → List Answer
answers s [] = []
answers s ((t, c) ∷ cs) = (call t c s).0 ∷ answers (call t c s).1 cs

unfoldable pub ideal_answers : Ideal → List (ℕ × Call) → List Answer
ideal_answers i [] = []
ideal_answers i ((t, c) ∷ cs) = (ideal_call t c i).0 ∷ ideal_answers (ideal_call t c i).1 cs

cons_lem : (a b : Answer) (xs ys : List Answer) → a ≡ b → xs ≡ ys → a ∷ xs ≡ b ∷ ys
cons_lem a b xs ys h k j = h j ∷ k j

answers-agree :
    (now : ℕ) (s : SessionStore) (i : Ideal) (cs : List (ℕ × Call))
    → InOrder now cs
    → Agrees now s i
    → answers s cs ≡ ideal_answers i cs
unfolding answers ideal_answers
answers-agree now s i [] o a = refl
answers-agree now s i ((t, c) ∷ cs) o a =
    let b = Agrees-later now t s i o.0 a in
    cons_lem _ _ _ _ (call_answer t s i b c)
      (answers-agree t (call t c s).1 (ideal_call t c i).1 cs o.1 (call-Agrees t s i b c))

view-Agrees : (s : SessionStore) → Agrees 0 s (view s)
unfolding view
view-Agrees s = record {
  flows = λ t k h. refl;
  sessions = λ t k h. refl;
  pars = λ t k h. refl;
  scratches = λ t k h. refl;
}

-- For every sequence of calls at clock readings that do not go back, the in-memory session store
-- answers as the specification does that only says which flows, sessions, pushed requests and
-- scratch entries can be seen at each time; expired rows that are still held and the texts of
-- errors are forgotten.
pub answers-eq-ideal_answers :
    (s : SessionStore) (cs : List (ℕ × Call))
    → InOrder 0 cs
    → answers s cs ≡ ideal_answers (view s) cs
answers-eq-ideal_answers s cs o = answers-agree 0 s (view s) cs o (view-Agrees s)
