-- ===== src/Tests.antt =====
-- Concrete inputs for the theorems on packages/openauth/src: a platform, a host and a store for which
-- their hypotheses hold.
mod Platforms
mod Fixtures
mod Logouts
mod Exchanges
mod Filters
mod Userinfos
mod Envelopes
mod Flows
mod Sessions
mod Methods
mod Authorizations
mod Stores
mod Clients
mod Claims
mod Codes
mod Grants
mod Refreshes
mod Machines
mod Proofs
