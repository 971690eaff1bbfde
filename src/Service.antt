-- ===== src/Service.antt =====
-- src/service.rs: the run command and the set-up of a peer.
pub mod Classify
pub mod Kinds
pub mod Startup
pub mod Peer
pub mod Setup
