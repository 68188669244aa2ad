-- ===== src/Worker.antt =====
-- `Worker` of src/client.rs: authentication, the supervision of its sockets, and its end.
pub mod Establish
pub mod Supervise
