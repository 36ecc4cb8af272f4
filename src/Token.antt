-- ===== src/Token.antt =====
-- packages/openauth/src/domain/token.ts: the subject id, the minting of tokens that every grant
-- shares, and the authorization-code grant.
pub mod SubjectId
pub mod Mint
pub mod Exchange
