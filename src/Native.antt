-- ===== src/Native.antt =====
-- src/native.rs: the transport to the first-party Responses service.
pub mod Retry
pub mod Route
pub mod Transport
