-- ===== src/SessionStore/Ideal.antt =====
-- What a session store promises, without rows: at each time, which entries can be seen. The store of
-- packages/openauth/src/adapters/memory/session-store.ts answers every sequence of calls as this
-- one does. Expired rows that it still holds, and the texts of its errors, are forgotten.
use openauth.Prelude.{
  ℕ, ◌+◌, ◌≤◌, String, Option, none, some, ◌==◌, ltb, leb, eqb, if◌then◌else◌, ◌≡◌,
}
use openauth.Types.Error.{Result, ok, err}
use openauth.Types.Json.{Json}
use openauth.Types.Flow.{FlowRecord, SessionRecord, ParRecord}
use openauth.SessionStore.{
  Stored, SessionStore, save_flow, update_flow_method_state, read_flow, consume_flow,
  create_session, read_session, revoke_session, save_par, consume_par, save_scratch, read_scratch,
  delete_scratch,
}

pub data Call : Type 0 where
  saves_flow : String → FlowRecord → ℕ → Call
  updates_flow : String → Json → Call
  reads_flow : String → Call
  consumes_flow : String → Call
  creates_session : String → SessionRecord → ℕ → Call
  reads_session : String → Call
  revokes_session : String → Call
  saves_par : String → ParRecord → ℕ → Call
  consumes_par : String → Call
  saves_scratch : String → String → ℕ → Call
  reads_scratch : String → Call
  deletes_scratch : String → Call

-- What a caller learns.
pub data Answer : Type 0 where
  refused done : Answer
  flow : FlowRecord → Answer
  session : SessionRecord → Answer
  par : ParRecord → Answer
  scratch : String → Answer

abbrev answer : {A : Type 0} → (A → Answer) → Result A → Answer
answer f (ok a) = f a
answer f (err e) = refused

module _ (now : ℕ) where
  unfoldable pub call : Call → SessionStore → Answer × SessionStore
  call (saves_flow k p ttl) s =
      (answer (λ _. done) (save_flow now k p ttl s).0, (save_flow now k p ttl s).1)
  call (updates_flow k j) s = (
    answer (λ _. done) (update_flow_method_state now k j s).0,
    (update_flow_method_state now k j s).1,
  )
  call (reads_flow k) s = (answer flow (read_flow now k s).0, (read_flow now k s).1)
  call (consumes_flow k) s = (answer flow (consume_flow now k s).0, (consume_flow now k s).1)
  call (creates_session k p ttl) s =
      (answer (λ _. done) (create_session now k p ttl s).0, (create_session now k p ttl s).1)
  call (reads_session k) s = (answer session (read_session now k s).0, (read_session now k s).1)
  call (revokes_session k) s =
      (answer (λ _. done) (revoke_session now k s).0, (revoke_session now k s).1)
  call (saves_par k p ttl) s =
      (answer (λ _. done) (save_par now k p ttl s).0, (save_par now k p ttl s).1)
  call (consumes_par k) s = (answer par (consume_par now k s).0, (consume_par now k s).1)
  call (saves_scratch k v ttl) s =
      (answer (λ _. done) (save_scratch now k v ttl s).0, (save_scratch now k v ttl s).1)
  call (reads_scratch k) s = (answer scratch (read_scratch now k s).0, (read_scratch now k s).1)
  call (deletes_scratch k) s = (answer (λ _. done) (delete_scratch k s).0, (delete_scratch k s).1)

-- The entries that can be seen at each time.
abbrev pub Visible : Type 0 → Type 0
Visible A = ℕ → String → Option A

pub record Ideal : Type 0 where
  pub flows : Visible FlowRecord
  pub sessions : Visible SessionRecord
  pub pars : Visible ParRecord
  pub scratches : Visible String

module _ {A : Type 0} where
  -- from now on `a` is under `k`, until `end`
  abbrev set : Visible A → String → A → ℕ → Visible A
  set v k a end t j = if k == j then (if ltb t end then some a else none) else v t j

  abbrev unset : Visible A → String → Visible A
  unset v k t j = if k == j then none else v t j

  abbrev change : (A → A) → Option A → Option A
  change f none = none
  change f (some a) = some (f a)

  abbrev modify : Visible A → String → (A → A) → Visible A
  modify v k f t j = if k == j then change f (v t j) else v t j

  abbrev shown : (A → Answer) → Option A → Answer
  shown f none = refused
  shown f (some a) = f a

module _ (now : ℕ) where
  unfoldable pub ideal_call : Call → Ideal → Answer × Ideal
  ideal_call (saves_flow k p ttl) i =
      if eqb ttl 0 then (refused, i) else (done, record i { flows = set i.flows k p (now + ttl) })
  ideal_call (updates_flow k j) i = (
    shown (λ _. done) (i.flows now k),
    record i { flows = modify i.flows k (λ f. record f { method_state = j }) },
  )
  ideal_call (reads_flow k) i = (shown flow (i.flows now k), i)
  ideal_call (consumes_flow k) i =
      (shown flow (i.flows now k), record i { flows = unset i.flows k })
  ideal_call (creates_session k p ttl) i =
      if eqb ttl 0
      then (refused, i)
      else (done, record i { sessions = set i.sessions k p p.expires_at })
  ideal_call (reads_session k) i = (shown session (i.sessions now k), i)
  ideal_call (revokes_session k) i = (done, record i { sessions = unset i.sessions k })
  ideal_call (saves_par k p ttl) i =
      if eqb ttl 0 then (refused, i) else (done, record i { pars = set i.pars k p (now + ttl) })
  ideal_call (consumes_par k) i = (shown par (i.pars now k), record i { pars = unset i.pars k })
  ideal_call (saves_scratch k v ttl) i =
      if eqb ttl 0
      then (refused, i)
      else (done, record i { scratches = set i.scratches k v (now + ttl) })
  ideal_call (reads_scratch k) i = (shown scratch (i.scratches now k), i)
  ideal_call (deletes_scratch k) i = (done, record i { scratches = unset i.scratches k })

-- What can be seen of the rows.
abbrev pub seen : {A : Type 0} → ℕ → Option (Stored A) → Option A
seen t none = none
seen t (some r) = if leb r.expires_at t then none else some r.record_of

abbrev pub seen_session : ℕ → Option SessionRecord → Option SessionRecord
seen_session t none = none
seen_session t (some r) = if leb r.expires_at t then none else some r

unfoldable pub view : SessionStore → Ideal
view s = record {
  flows = λ t k. seen t (s.flows k);
  sessions = λ t k. seen_session t (s.sessions k);
  pars = λ t k. seen t (s.par k);
  scratches = λ t k. seen t (s.scratch k);
}

-- A store and a specification that agree from a time on.
pub record Agrees (now : ℕ) (s : SessionStore) (i : Ideal) : Type 0 where
  pub flows : (t : ℕ) (k : String) → now ≤ t → seen t (s.flows k) ≡ i.flows t k
  pub sessions : (t : ℕ) (k : String) → now ≤ t → seen_session t (s.sessions k) ≡ i.sessions t k
  pub pars : (t : ℕ) (k : String) → now ≤ t → seen t (s.par k) ≡ i.pars t k
  pub scratches : (t : ℕ) (k : String) → now ≤ t → seen t (s.scratch k) ≡ i.scratches t k
