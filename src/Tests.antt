-- ===== src/Tests.antt =====
-- Runs of the model on small inputs, and the theorems applied to concrete states.
pub mod Samples
mod Wire
mod Accounts
mod Sessions
mod Stats
mod Files
mod Ghosts
