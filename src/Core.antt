-- ===== src/Core.antt =====
-- The data model that the crates share: crates/gravity-core.
pub mod Capabilities
pub mod Json
pub mod Serde
pub mod Error
pub mod ModelId
pub mod ModelInfo
pub mod Tool
pub mod Message
pub mod Conversation
pub mod Request
pub mod Response
pub mod Stream
pub mod Structured
pub mod Emulation
pub mod Accounts
mod Runs
