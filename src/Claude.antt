-- ===== src/Claude.antt =====
-- The provider for claude.ai: crates/gravity-providers/src/claude.
pub mod Accumulator
mod Runs
