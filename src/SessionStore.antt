-- ===== src/SessionStore.antt =====
-- packages/openauth/src/adapters/memory/session-store.ts: the flows between /authorize and the
-- callback, long-lived sessions, pushed authorization requests, and the scratch entries of the
-- methods. Every method is one turn of the event loop; `now` is what the store's clock reads. A
-- lifetime is a natural number, so the text of a refused one ends in 0.
pub mod Ideal
pub mod Refines
pub mod Once
use openauth.Prelude.{
  ℕ, ◌+◌, String, Option, none, some, leb, eqb, if◌then◌else◌, ◌<>◌, Dict, empty, put, remove,
}
use openauth.Types.Error.{
  AuthError, Result, ok, err, internal_error, unknown_state, invalid_request,
}
use openauth.Types.Json.{Json}
use openauth.Types.Flow.{FlowRecord, SessionRecord, ParRecord}

-- `StoredFlow`, `StoredPar` and `StoredScratch`
pub record Stored (A : Type 0) : Type 0 where
  pub record_of : A
  pub expires_at : ℕ

pub record SessionStore : Type 0 where
  pub flows : Dict (Stored FlowRecord)
  pub sessions : Dict SessionRecord
  pub par : Dict (Stored ParRecord)
  pub scratch : Dict (Stored String)

abbrev pub new_session_store : SessionStore
new_session_store = record { flows = empty; sessions = empty; par = empty; scratch = empty }

-- The texts of the errors.
unfoldable pub ttl_error : String → String → AuthError
ttl_error method name = internal_error (method <> ": " <> name <> " must be positive, got 0")

unfoldable pub unknown_entry : String → String → AuthError
unknown_entry what key = unknown_state (what <> " \"" <> key <> "\" unknown")

unfoldable pub consumed_entry : String → String → AuthError
consumed_entry what key = unknown_state (what <> " \"" <> key <> "\" unknown or already consumed")

unfoldable pub expired_entry : String → String → AuthError
expired_entry what key = unknown_state (what <> " \"" <> key <> "\" expired")

unfoldable pub unknown_session : String → AuthError
unknown_session key = invalid_request ("session \"" <> key <> "\" unknown") none

unfoldable pub expired_session : String → AuthError
expired_session key = invalid_request ("session \"" <> key <> "\" expired") none

module _ (now : ℕ) where
  unfoldable pub save_flow :
      String → FlowRecord → ℕ → SessionStore → Result (Unit {0}) × SessionStore
  save_flow flow_id payload ttl s = if eqb ttl 0 then (err (ttl_error "saveFlow" "ttl"), s) else (
    ok tt,
    record s {
      flows = put s.flows flow_id (record { record_of = payload; expires_at = now + ttl });
    },
  )

  unfoldable pub update_flow_method_state :
      String → Json → SessionStore → Result (Unit {0}) × SessionStore
  update_flow_method_state flow_id method_state s = elim (s.flows flow_id) [
    | none ↦ (err (unknown_entry "flow" flow_id), s)
    | some stored ↦
        if leb stored.expires_at now
        then (err (expired_entry "flow" flow_id), record s { flows = remove s.flows flow_id })
        else (
          ok tt,
          record s {
            flows = put s.flows flow_id (record stored {
              record_of = record (stored.record_of) { method_state = method_state };
            });
          },
        )
  ]

  unfoldable pub read_flow : String → SessionStore → Result FlowRecord × SessionStore
  read_flow flow_id s = elim (s.flows flow_id) [
    | none ↦ (err (unknown_entry "flow" flow_id), s)
    | some stored ↦
        if leb stored.expires_at now
        then (err (expired_entry "flow" flow_id), record s { flows = remove s.flows flow_id })
        else (ok stored.record_of, s)
  ]

  -- The row is deleted before the expiry test.
  unfoldable pub consume_flow : String → SessionStore → Result FlowRecord × SessionStore
  consume_flow flow_id s = elim (s.flows flow_id) [
    | none ↦ (err (consumed_entry "flow" flow_id), s)
    | some stored ↦
        let s' = record s { flows = remove s.flows flow_id } in
        if leb stored.expires_at now
        then (err (expired_entry "flow" flow_id), s')
        else (ok stored.record_of, s')
  ]

  -- The row expires when its payload says, not after `ttl`.
  unfoldable pub create_session :
      String → SessionRecord → ℕ → SessionStore → Result (Unit {0}) × SessionStore
  create_session session_id payload ttl s =
      if eqb ttl 0
      then (err (ttl_error "createSession" "ttl"), s)
      else (ok tt, record s { sessions = put s.sessions session_id payload })

  unfoldable pub read_session : String → SessionStore → Result SessionRecord × SessionStore
  read_session session_id s = elim (s.sessions session_id) [
    | none ↦ (err (unknown_session session_id), s)
    | some session ↦
        if leb session.expires_at now
        then (
          err (expired_session session_id),
          record s { sessions = remove s.sessions session_id },
        )
        else (ok session, s)
  ]

  unfoldable pub revoke_session : String → SessionStore → Result (Unit {0}) × SessionStore
  revoke_session session_id s = (ok tt, record s { sessions = remove s.sessions session_id })

  unfoldable pub save_par : String → ParRecord → ℕ → SessionStore → Result (Unit {0}) × SessionStore
  save_par request_uri payload ttl s = if eqb ttl 0 then (err (ttl_error "savePar" "ttl"), s) else (
    ok tt,
    record s {
      par = put s.par request_uri (record { record_of = payload; expires_at = now + ttl });
    },
  )

  unfoldable pub consume_par : String → SessionStore → Result ParRecord × SessionStore
  consume_par request_uri s = elim (s.par request_uri) [
    | none ↦ (err (consumed_entry "par" request_uri), s)
    | some stored ↦
        let s' = record s { par = remove s.par request_uri } in
        if leb stored.expires_at now
        then (err (expired_entry "par" request_uri), s')
        else (ok stored.record_of, s')
  ]

  unfoldable pub save_scratch :
      String → String → ℕ → SessionStore → Result (Unit {0}) × SessionStore
  save_scratch key value ttl s = if eqb ttl 0 then (err (ttl_error "saveScratch" "ttlMs"), s) else (
    ok tt,
    record s { scratch = put s.scratch key (record { record_of = value; expires_at = now + ttl }) },
  )

  unfoldable pub read_scratch : String → SessionStore → Result String × SessionStore
  read_scratch key s = elim (s.scratch key) [
    | none ↦ (err (unknown_entry "scratch" key), s)
    | some stored ↦
        if leb stored.expires_at now
        then (err (expired_entry "scratch" key), record s { scratch = remove s.scratch key })
        else (ok stored.record_of, s)
  ]

unfoldable pub delete_scratch : String → SessionStore → Result (Unit {0}) × SessionStore
delete_scratch key s = (ok tt, record s { scratch = remove s.scratch key })
