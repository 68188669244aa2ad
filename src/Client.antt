-- ===== src/Client.antt =====
-- `Client` of src/client.rs, the handle of the application.
pub mod Tls
pub mod Create
pub mod Handle
