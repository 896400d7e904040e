-- ===== src/Proto.antt =====
-- The Connect-RPC codec of crates/gravity-providers/src/cursor/proto.rs: varints, fields, frames.
pub mod Outcome
pub mod Varint
pub mod Fields
pub mod Frames
mod Runs
