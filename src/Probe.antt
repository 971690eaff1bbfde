-- ===== src/Probe.antt =====
-- src/probe.rs: control-plane probes.
pub mod Types
pub mod Frame
pub mod Controller
pub mod Schedule
pub mod Update
pub mod Events
pub mod Invariant
pub mod Packets
pub mod Replies
pub mod Paths
pub mod Spacing
pub mod Handler
pub mod Acknowledged
pub mod Admission
pub mod Exchange
pub mod Track
