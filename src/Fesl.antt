-- ===== src/Fesl.antt =====
-- server/fesl: the account, statistics and friends service.
pub mod Validate
pub mod Session
pub mod Login
pub mod Personas
pub mod Static
pub mod Associations
pub mod Rank
pub mod Dispatch
pub mod Handlers
pub mod Connection
