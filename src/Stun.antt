-- ===== src/Stun.antt =====
-- The STUN client: src/stun.
pub mod Codec
pub mod Client
