-- ===== src/Kiro.antt =====
-- The provider for AWS Kiro: crates/gravity-providers/src/kiro.
pub mod Parser
pub mod Models
pub mod Build
pub mod Chat
mod Runs
