-- ===== src/Protocol.antt =====
-- src/protocol.rs: the boundary between Codex Responses and Grok Responses.
pub mod Error
pub mod Fields
pub mod Base64
pub mod Content
pub mod Event
pub mod Stream
pub mod Namespace
pub mod Restore
pub mod Sanitize
pub mod Items
pub mod Input
pub mod Schema
pub mod Tools
pub mod Request
pub mod Routing
