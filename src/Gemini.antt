-- ===== src/Gemini.antt =====
-- The provider for the Gemini web application: crates/gravity-providers/src/gemini.
pub mod Frames
pub mod Parts
mod Runs
