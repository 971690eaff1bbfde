-- ===== src/Candidates.antt =====
-- src/candidates.rs and src/message.rs: the DHT records that peers exchange.
pub mod Types
pub mod Filter
pub mod Listener
pub mod Selection
pub mod Freshness
pub mod Replay
pub mod Advertised
pub mod Publisher
pub mod Publishing
pub mod Gather
pub mod Source
