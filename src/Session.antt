-- ===== src/Session.antt =====
-- `Worker::session` of src/client.rs: one socket, its pending sends and its heartbeat.
pub mod State
pub mod Incoming
pub mod Round
pub mod Answers
pub mod Balance
pub mod Rounds
pub mod Leaves
pub mod Keys
pub mod Size
pub mod Receipts
pub mod Wakeups
pub mod Liveness
pub mod Deadlines
pub mod Heartbeat
pub mod Order
pub mod Typed
