-- ===== src/Anthropic.antt =====
-- The Anthropic Messages API: crates/gravity-providers/src/anthropic.
pub mod Wire
pub mod Stream
pub mod Streamed
pub mod Blocks
pub mod Prompts
mod Runs
