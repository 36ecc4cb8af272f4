-- ===== src/MethodDispatch/Isolated.antt =====
-- A method instance reaches only its own scratch entries. About
-- packages/openauth/src/domain/method-dispatch.ts.
use openauth.Prelude.{
  ℕ, String, true, ◌∷◌, ◌≡◌, ◌≢◌, ◌<>◌, refl, ap, sym, ◌∙◌, arith, eq_iff, split, lacks,
  split-append_colon,
}
use text.Mathlib.TextLemmas.{append_assoc}
use openauth.Types.Method.{Handling, returns, puts, gets, deletes}
use openauth.SessionStore.{SessionStore, save_scratch, read_scratch, delete_scratch}
use openauth.MethodDispatch.{
  scratch_prefix, scope, scratch_put, scratch_get, scratch_delete, run_handler,
}

-- The store is as before in all but scratch entries other than `j`.
pub record Spares (j : String) (s s' : SessionStore) : Type 0 where
  pub flows : s'.flows ≡ s.flows
  pub sessions : s'.sessions ≡ s.sessions
  pub par : s'.par ≡ s.par
  pub entry : s'.scratch j ≡ s.scratch j

Spares-trans : (j : String) (s t u : SessionStore) → Spares j s t → Spares j t u → Spares j s u
Spares-trans j s t u a b = record {
  flows = b.flows ∙ a.flows;
  sessions = b.sessions ∙ a.sessions;
  par = b.par ∙ a.par;
  entry = b.entry ∙ a.entry;
}

module _ (now : ℕ) (prefix j : String) (other : (key : String) → scope prefix key ≢ j) where
  scratch_put-Spares :
      (key value : String) (ttl : ℕ) (s : SessionStore)
      → Spares j s (scratch_put now prefix key value ttl s).1
  unfolding scratch_put save_scratch
  scratch_put-Spares key value ttl s =
      let ne = other key in
      record {
        flows = ground arith;
        sessions = ground arith;
        par = ground arith;
        entry = ground (arith, eq_iff (scope prefix key) j);
      }

  scratch_get-Spares :
      (key : String) (s : SessionStore) → Spares j s (scratch_get now prefix key s).1
  unfolding scratch_get read_scratch
  scratch_get-Spares key s =
      let ne = other key in
      record {
        flows = ground arith;
        sessions = ground arith;
        par = ground arith;
        entry = ground (arith, eq_iff (scope prefix key) j);
      }

  scratch_delete-Spares :
      (key : String) (s : SessionStore) → Spares j s (scratch_delete now prefix key s).1
  unfolding scratch_delete delete_scratch
  scratch_delete-Spares key s =
      let ne = other key in
      record {
        flows = refl;
        sessions = refl;
        par = refl;
        entry = ground (arith, eq_iff (scope prefix key) j);
      }

  run_handler-Spares : (h : Handling) (s : SessionStore) → Spares j s (run_handler now prefix h s).1
  unfolding run_handler
  run_handler-Spares (returns r) s = record {
    flows = refl;
    sessions = refl;
    par = refl;
    entry = refl;
  }
  run_handler-Spares (puts key value ttl next) s =
      let a = scratch_put now prefix key value ttl s in
      Spares-trans j s a.1 _ (scratch_put-Spares key value ttl s)
        (run_handler-Spares (next a.0) a.1)
  run_handler-Spares (gets key next) s =
      let a = scratch_get now prefix key s in
      Spares-trans j s a.1 _ (scratch_get-Spares key s) (run_handler-Spares (next a.0) a.1)
  run_handler-Spares (deletes key next) s =
      let a = scratch_delete now prefix key s in
      Spares-trans j s a.1 _ (scratch_delete-Spares key s) (run_handler-Spares (next a.0) a.1)

scope-parts :
    (t m key : String)
    → lacks 58 t ≡ true
    → lacks 58 m ≡ true
    → split 58 (scope (scratch_prefix t m) key) ≡ "scratch" ∷ t ∷ m ∷ split 58 key
unfolding scope scratch_prefix
scope-parts t m key h k =
    let whole : ("scratch:" <> (t <> (":" <> (m <> ":")))) <> key
        ≡ "scratch" <> (":" <> (t <> (":" <> (m <> (":" <> key))))) =
      rw (append_assoc "scratch:", append_assoc t, append_assoc ":", append_assoc m)
        (append_assoc "scratch" ":" (t <> (":" <> (m <> (":" <> key))))) in
    rw
      (
        whole,
        split-append_colon "scratch" (t <> (":" <> (m <> (":" <> key)))) refl,
        split-append_colon t (m <> (":" <> key)) h,
        split-append_colon m key k,
      )
      refl

-- Where tenant and method ids have no colon, whatever a method's handler does with its scratch
-- store, the flows, sessions and pushed requests stay as they were, and so does every scratch
-- entry of another tenant or method.
pub run_handler-isolated :
    (now : ℕ) (tenant method tenant' method' key : String) (h : Handling) (s : SessionStore)
    → lacks 58 tenant ≡ true
    → lacks 58 method ≡ true
    → lacks 58 tenant' ≡ true
    → lacks 58 method' ≡ true
    → (tenant ≡ tenant' → method ≢ method')
    → Spares
        (scope (scratch_prefix tenant' method') key)
        s
        (run_handler now (scratch_prefix tenant method) h s).1
run_handler-isolated now tenant method tenant' method' key h s a b c d ne =
    run_handler-Spares now (scratch_prefix tenant method)
      (scope (scratch_prefix tenant' method') key)
      (λ k e.
        let same =
          sym (scope-parts tenant method k a b)
          ∙ ap (split 58) e
          ∙ scope-parts tenant' method' key c d in
        let same : "scratch" ∷ tenant ∷ method ∷ split 58 k
            ≡ "scratch" ∷ tenant' ∷ method' ∷ split 58 key =
          same in
        ne (cc) (cc))
      h s
