-- ===== src/Utils.antt =====
-- src/utils.rs: queues that drop, supervised tasks, and the UDP sender.
pub mod Channel
pub mod Monitor
pub mod Sender
