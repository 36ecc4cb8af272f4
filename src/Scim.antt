-- ===== src/Scim.antt =====
-- The SCIM server of packages/openauth/src/domain/scim, as far as it is modelled: its filters.
pub mod Filter
