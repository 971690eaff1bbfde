-- ===== src/Service/Kinds.antt =====
-- Which datagrams of the Internet socket go where.
use p2p_tunnler.Prelude.{
  ℕ, ◌<◌, ◌≤◌, ◌≡◌, ◌≢◌, ◌↔◌, refl, sym, ap, ◌∙◌, true, false, some, List, [], ◌∷◌, ◌++◌, length,
  slice, take, drop, take-append-drop, length-append, length-take, length-drop, arith, ok, ◌^◌,
}
use p2p_tunnler.Net.{Bytes, SocketAddr, bytes_beq_iff, starts_with, IsBytes}
use p2p_tunnler.Wire.{to_be_bytes}
use p2p_tunnler.Stun.Codec.Types.{Attribute, Response, BindResponse, binding_response}
use p2p_tunnler.Stun.Codec.Decode.{cookie_word, decode_const}
use p2p_tunnler.Stun.Codec.Body.{Body, end, item, first, mapped_of}
use p2p_tunnler.Stun.Codec.Tlv.{length-tlv}
use p2p_tunnler.Stun.Codec.Response.{Answers, decode_const_iff}
use p2p_tunnler.Probe.Frame.{magic, frame}
use p2p_tunnler.Transport.Routing.{InternetPacketKind}
use p2p_tunnler.Service.Classify.{packet_kind}

-- A datagram with the magic is the magic and a rest.
starts_with-magic :
    (packet : Bytes) → starts_with packet magic ≡ true → packet ≡ magic ++ drop 4 packet
starts_with-magic (a ∷ b ∷ c ∷ d ∷ rest) h = ground arith
starts_with-magic [] h = cc
starts_with-magic (a ∷ []) h = ground arith
starts_with-magic (a ∷ b ∷ []) h = ground arith
starts_with-magic (a ∷ b ∷ c ∷ []) h = ground arith

-- The four bytes that a STUN message has before the cookie, and what follows it.
abbrev pub HasCookie : Bytes → Type 0
HasCookie packet =
    (before : Bytes) × (rest : Bytes) × (length before ≡ 4)
    × (packet ≡ before ++ (to_be_bytes 8 cookie_word ++ rest))

slice_cookie :
    (packet : Bytes)
    → 20 < length packet
    → slice 4 12 packet ≡ to_be_bytes 8 cookie_word
    → HasCookie packet
slice_cookie packet long e = (
  take 4 packet,
  drop 8 (drop 4 packet),
  omega (arith, length-take 4 packet),
  sym (take-append-drop 4 packet)
      ∙ ap (◌++◌ (take 4 packet))
          (sym (take-append-drop 8 (drop 4 packet)) ∙ ap (λ t. t ++ drop 8 (drop 4 packet)) e),
)

cookie_slice :
    (before rest : Bytes)
    → length before ≡ 4
    → slice 4 12 (before ++ (to_be_bytes 8 cookie_word ++ rest)) ≡ to_be_bytes 8 cookie_word
cookie_slice (a ∷ b ∷ c ∷ d ∷ []) rest h = refl
cookie_slice _ rest h = absurd (omega arith)

-- A datagram is a probe exactly when it is the frame of a token of sixteen bytes; it is dropped exactly
-- when it has the magic of a probe and another length; it goes to the STUN client exactly when it has
-- no magic, more than twenty bytes and the cookie behind the first four; all else is tunnel data.
pub packet_kind_iff :
    (packet : Bytes)
    → ((packet_kind packet ≡ InternetPacketKind.probe)
        ↔ ((token : Bytes) × (length token ≡ 16) × (packet ≡ frame token)))
      × ((packet_kind packet ≡ InternetPacketKind.drop)
          ↔ ((rest : Bytes) × (length rest ≢ 16) × (packet ≡ magic ++ rest)))
      × ((packet_kind packet ≡ InternetPacketKind.stun)
          ↔ ((starts_with packet magic ≡ false) × (20 < length packet) × HasCookie packet))
unfolding packet_kind frame
packet_kind_iff packet = (
  (
    λ e. (
      drop 4 packet,
      ground (arith, length-drop 4 packet),
      starts_with-magic packet (ground arith),
    ),
    λ (token, n, e). ap packet_kind e ∙ ground arith,
  ),
  (
    λ e. (
      drop 4 packet,
      λ n.
          ground (arith, length-drop 4 packet, ap length (starts_with-magic packet (ground arith))),
      starts_with-magic packet (ground arith),
    ),
    λ (rest, n, e). ap packet_kind e ∙ ground arith,
  ),
  (
    λ e. (
      ground arith,
      ground arith,
      slice_cookie packet (ground arith)
          ((bytes_beq_iff (slice 4 12 packet) (to_be_bytes 8 cookie_word)).0 (ground arith)),
    ),
    λ (plain, long, (before, rest, n, e)). ground (
      arith,
      cookie_slice before rest n,
      ap (slice 4 12) e,
      bytes_beq_iff (slice 4 12 packet) (to_be_bytes 8 cookie_word),
    ),
  ),
)

-- A body with an address has bytes.
Body-length :
    {key bytes : Bytes} {attributes : List Attribute} {s : SocketAddr}
    → Body key bytes attributes
    → first mapped_of attributes ≡ some s
    → 0 < length bytes
Body-length end e = cc
Body-length (item {rest = rest} typ value pad ht hl hp reads expected eq b) e = omega (
  arith,
  ap length eq,
  length-tlv typ value pad,
  length-append value (pad ++ rest),
  length-append value pad,
)

Answers-stun :
    (id : ℕ) (msg : Bytes) (b : BindResponse)
    → Answers id msg b
    → packet_kind msg ≡ InternetPacketKind.stun
Answers-stun id msg b a = (packet_kind_iff msg).2.1 (
  ap (λ m. starts_with m magic) a.message,
  omega (arith, ap length a.message, Body-length a.grammar a.mapped),
  (
    to_be_bytes 2 binding_response ++ to_be_bytes 2 (length a.body),
    to_be_bytes 8 id ++ a.body,
    refl,
    a.message,
  ),
)

-- Every datagram that the STUN client accepts as the response to some transaction is routed to the
-- STUN client.
pub accepted_response_is_stun :
    (id : ℕ) (msg : Bytes) (r : Response)
    → IsBytes msg
    → id < 2 ^ 64
    → decode_const id msg ≡ some (ok (some r))
    → packet_kind msg ≡ InternetPacketKind.stun
accepted_response_is_stun id msg (Response.bind b) h small e =
    Answers-stun id msg b ((decode_const_iff id msg b h small).0 e)

-- A WireGuard message, whose first byte is 1 to 4 and whose next three are 0, never counts as a probe
-- and is never dropped; it is tunnel data unless it has the cookie of STUN behind its first four bytes.
pub wireguard_is_data :
    (typ : ℕ) (rest : Bytes)
    → 1 ≤ typ
    → typ ≤ 4
    → let packet = typ ∷ 0 ∷ 0 ∷ 0 ∷ rest in
      (packet_kind packet ≢ InternetPacketKind.probe)
      × (packet_kind packet ≢ InternetPacketKind.drop)
      × (take 8 rest ≢ to_be_bytes 8 cookie_word
          → packet_kind packet ≡ InternetPacketKind.data_packet)
unfolding packet_kind
wireguard_is_data typ rest lo hi = (
  λ e. ground arith,
  λ e. ground arith,
  λ other. ground (arith, bytes_beq_iff (take 8 rest) (to_be_bytes 8 cookie_word)),
)
