-- ===== src/Types/Audit.antt =====
-- packages/openauth/src/ports/audit-log.ts: the events that the modelled operations emit. Each event
-- has its timestamp last. `safeAudit` drops an event when the log throws and goes on: the model's log
-- takes every event.
use openauth.Prelude.{ℕ, String, Bool, Option}

pub data AuditEvent : Type 0 where
  -- tenant, client, method id, method kind, subject, hash of the refresh token, id_token, DPoP
  token_issued : String → String → String → String → String → String → Bool → Bool → ℕ → AuditEvent
  -- tenant, client, subject, family
  token_refreshed : String → String → String → String → ℕ → AuditEvent
  -- target tenant, tenant of the subject token, client, subject, family
  token_exchanged : String → String → String → String → String → ℕ → AuditEvent
  -- tenant, client, subject, family, reason
  token_revoked : String → Option String → String → Option String → String → ℕ → AuditEvent
  -- tenant, client, family
  refresh_reuse_detected : String → String → String → ℕ → AuditEvent
  -- tenant, presented client, client of the token, subject
  revoke_wrong_client_attempt : String → String → String → String → ℕ → AuditEvent
  -- tenant, client, type of the subject, reason, detail
  invalid_subject_claim : String → String → String → String → String → ℕ → AuditEvent
  -- tenant, client, subject
  session_logout : String → Option String → Option String → ℕ → AuditEvent
  -- prefix of the jti
  dpop_replay_detected : String → ℕ → AuditEvent
  -- tenant, client, method id, method kind, flow
  authorize_started : String → String → String → String → String → ℕ → AuditEvent
  -- the same with the upstream subject
  authorize_succeeded : String → String → String → String → String → String → ℕ → AuditEvent
  -- the same with the reason
  authorize_failed : String → String → String → String → String → String → ℕ → AuditEvent
  -- tenant, method id, kind
  unknown_method_kind : String → String → String → ℕ → AuditEvent
  -- the same with the paths of the issues
  invalid_method_config : String → String → String → String → ℕ → AuditEvent
  -- tenant, method id, expected kind, actual kind
  factory_id_mismatch : String → String → String → String → ℕ → AuditEvent
  -- tenant, flow
  flow_replay_attempt : Option String → String → ℕ → AuditEvent
  -- tenant of the state, tenant of the flow, flow
  flow_tenant_mismatch : String → String → String → ℕ → AuditEvent
  -- tenant, flow, expected host and path, actual host and path
  flow_callback_mismatch : String → String → String → String → String → String → ℕ → AuditEvent
