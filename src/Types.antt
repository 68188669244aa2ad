-- ===== src/Types.antt =====
-- src/types.rs: the public data types, in child modules.
pub mod Device
pub mod Failure
pub mod Text
pub mod Options
pub mod Messages
pub mod Decode
