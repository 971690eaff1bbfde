-- ===== src/Wire/Defs.antt =====
-- Big-endian integers and the read cursor of src/stun/codec.rs: `to_be_bytes`, the `put_*`,
-- `write_*` and `read_*` calls, and `std::io::Cursor`.
use p2p_tunnler.Prelude.{
  ℕ, zero, suc, ◌+◌, ◌*◌, ◌/◌, ◌%◌, [], ◌∷◌, ◌++◌, leb, if◌then◌else◌, length, slice, drop, Result,
  ok, err,
}
use p2p_tunnler.Net.{Bytes}

-- `std::io::ErrorKind`, the kinds that the codec makes. Messages are not modelled.
pub data ErrorKind : Type 0 where
  invalid_input invalid_data unexpected_eof : ErrorKind

abbrev pub IoResult : Type 0 → Type 0
IoResult A = Result ErrorKind A

-- The `w` low bytes of `n`, the highest first.
abbrev pub to_be_bytes : ℕ → ℕ → Bytes
to_be_bytes zero n = []
to_be_bytes (suc w) n = to_be_bytes w (n / 256) ++ n % 256 ∷ []

abbrev pub be_from : ℕ → Bytes → ℕ
be_from acc [] = acc
be_from acc (b ∷ bs) = be_from (acc * 256 + b) bs

abbrev pub from_be_bytes : Bytes → ℕ
from_be_bytes bs = be_from 0 bs

pub record Cursor : Type 0 where
  pub get_ref : Bytes
  pub position : ℕ

-- The bytes that are not yet read.
abbrev pub remaining : Cursor → Bytes
remaining c = drop c.position c.get_ref

-- `read_u16`, `read_u64`: an integer of `w` bytes.
unfoldable pub read_uint : ℕ → Cursor → IoResult (ℕ × Cursor)
read_uint w c =
    if leb (c.position + w) (length c.get_ref)
    then ok (
      from_be_bytes (slice c.position (c.position + w) c.get_ref),
      record c { position = c.position + w },
    )
    else err unexpected_eof
