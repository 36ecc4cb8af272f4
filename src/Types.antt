-- ===== src/Types.antt =====
-- The data of packages/openauth/src/types: errors, results, tenants, tokens, audit events.
pub mod Error
pub mod Flow
pub mod Method
pub mod Effect
pub mod Json
pub mod Tenant
pub mod Token
pub mod Audit
