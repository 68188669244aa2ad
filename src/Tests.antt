-- ===== src/Tests.antt =====
-- Runs of the model at concrete inputs, over a concrete JSON library. No code of the repository is
-- modelled here.
pub mod Serde
mod Sessions
mod Messages
mod Limits
mod Workers
mod Clients
mod Systems
mod Runs
mod Probes
mod Soaks
mod Orders
mod Controls
mod Networks
mod Typing
mod Roundtrips
mod Chats
