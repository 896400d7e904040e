-- ===== src/OpenaiCompat.antt =====
-- The client of OpenAI-compatible services: crates/gravity-providers/src/openai_compat.
pub mod Wire
pub mod Request
pub mod Answer
pub mod Failures
pub mod Deltas
pub mod Pieces
pub mod Chunks
pub mod Echo
mod Runs
