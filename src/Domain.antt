-- ===== src/Domain.antt =====
-- src/domain: the identities that several components share.
pub mod Platform
pub mod Instance
pub mod Account
