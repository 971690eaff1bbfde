-- ===== src/Stun/Codec.antt =====
-- src/stun/codec.rs: the STUN messages, their encoding and their decoding.
pub mod Types
pub mod Encode
pub mod Decode
pub mod Tlv
pub mod Header
pub mod Response
pub mod Layout
pub mod Request
pub mod Message
pub mod Size
pub mod Total
pub mod Xor
pub mod Body
pub mod Loop
pub mod Inversion
pub mod RoundTrip
