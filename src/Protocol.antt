-- ===== src/Protocol.antt =====
-- The protocol crate (protocol/src): identifiers, hashes, entities, the tag graph and messages.
pub mod Types
pub mod NonNegative
pub mod Bytes
pub mod Entity
pub mod Card
pub mod Tag
pub mod Deleted
pub mod Version
pub mod Graph
pub mod Messages
pub mod Extract
