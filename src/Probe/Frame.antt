-- ===== src/Probe/Frame.antt =====
-- The frame of a control probe: `MAGIC`, `classify`, `parse_frame`, `frame` and `decode_token` of
-- src/probe.rs. A token is a list of 16 bytes.
use p2p_tunnler.Prelude.{
  ℕ, ◌≡◌, ◌↔◌, ap, ◌∙◌, Bool, not, ◌||◌, Option, none, some, [], ◌∷◌, ◌++◌, ◌==◌, if◌then◌else◌,
  length, drop, arith,
}
use Prim.Native.String.{String}
use p2p_tunnler.Net.{Bytes, starts_with}

-- `P2PC`.
abbrev pub magic : Bytes
magic = 0x50 ∷ 0x32 ∷ 0x50 ∷ 0x43 ∷ []

abbrev pub frame_len : ℕ
frame_len = 20

unfoldable pub classify : Bytes → Bool
classify packet = starts_with packet magic

-- `<[u8; 16]>::try_from(bytes).ok()`.
abbrev pub token_of : Bytes → Option Bytes
token_of bytes = if length bytes == 16 then some bytes else none

unfoldable pub parse_frame : Bytes → Option Bytes
parse_frame packet =
    if not (length packet == frame_len) || not (starts_with packet magic)
    then none
    else token_of (drop 4 packet)

unfoldable pub frame : Bytes → Bytes
frame token = magic ++ token

-- `decode_token` over the Base64 decoder of the `base64` crate.
unfoldable pub decode_token : (String → Option Bytes) → String → Option Bytes
decode_token base64_decode token = elim (base64_decode token) [
  | none ↦ none
  | some bytes ↦ token_of bytes
]

parse_frame-some :
    (packet token : Bytes)
    → parse_frame packet ≡ some token
    → (packet ≡ frame token) × (length token ≡ 16)
unfolding parse_frame frame
parse_frame-some (a ∷ b ∷ c ∷ d ∷ rest) token e = ground arith
parse_frame-some [] token e = cc
parse_frame-some (a ∷ []) token e = cc
parse_frame-some (a ∷ b ∷ []) token e = cc
parse_frame-some (a ∷ b ∷ c ∷ []) token e = cc

-- The frames that parse are exactly the magic followed by a token of sixteen bytes, which is returned.
pub parse_frame_iff :
    (packet token : Bytes)
    → (parse_frame packet ≡ some token) ↔ ((packet ≡ frame token) × (length token ≡ 16))
unfolding parse_frame frame
parse_frame_iff packet token =
    (parse_frame-some packet token, λ (e, n). ap parse_frame e ∙ ground arith)
