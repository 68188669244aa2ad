-- ===== src/Protocol.antt =====
-- src/protocol.rs: building requests and reading what the server sends.
pub mod Normalize
pub mod Outbound
pub mod Inbound
pub mod RoundTrip
