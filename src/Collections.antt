-- ===== src/Collections.antt =====
-- The standard library's hash sets and hash maps.
pub mod Sets
pub mod Maps
pub mod Counting
