-- ===== src/Wire.antt =====
-- Reading and writing of network byte order, with its laws.
mod Defs
mod Laws
mod Xor
mod Inversion
unfoldable pub use Defs.*
pub use Laws.*
pub use Xor.*
pub use Inversion.*
