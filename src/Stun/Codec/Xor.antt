-- ===== src/Stun/Codec/Xor.antt =====
-- XOR-MAPPED-ADDRESS, against the masking that a server applies.
use Prim.Native.Nat.{bit_xor}
use p2p_tunnler.Prelude.{
  ℕ, suc, ◌^◌, ◌<◌, ◌≡◌, refl, sym, ap, none, some, [], ◌∷◌, ◌++◌, arith, length, slice, take-all,
  length-append, append-nil, ok, ◌⊎◌, inl, inr,
}
use p2p_tunnler.Net.{Bytes, SocketAddr, IsAddr}
use p2p_tunnler.Wire.{to_be_bytes, from_be_bytes, from_be_bytes-to_be_bytes, xor_cancel, bit_xor-lt}
use p2p_tunnler.Stun.Codec.Types.{Attribute, Response, binding_response, xor_mapped_address_type}
use p2p_tunnler.Stun.Codec.Encode.{header}
use p2p_tunnler.Stun.Codec.Decode.{xor_bytes, read_xor_address, read_value, decode_const}
use p2p_tunnler.Stun.Codec.Body.{end, item}
use p2p_tunnler.Stun.Codec.Tlv.{tlv}
use p2p_tunnler.Stun.Codec.Response.{xor_key, Answers, decode_const-Answers}

xor_bytes_cancel : (bs ks : Bytes) → xor_bytes (xor_bytes bs ks) ks ≡ bs
xor_bytes_cancel [] ks = refl
xor_bytes_cancel (b ∷ bs) [] = refl
xor_bytes_cancel (b ∷ bs) (k ∷ ks) = rw (xor_cancel b k, xor_bytes_cancel bs ks)

length-xor_bytes : (bs ks : Bytes) → length (xor_bytes bs ks) ≡ length bs
length-xor_bytes [] ks = refl
length-xor_bytes (b ∷ bs) [] = refl
length-xor_bytes (b ∷ bs) (k ∷ ks) = ap suc (length-xor_bytes bs ks)

-- The first two bytes of the key, with which the port is masked.
abbrev port_key : Bytes → ℕ
port_key key = from_be_bytes (slice 0 2 key)

-- The value of the attribute for an address, as RFC 5389 has it.
abbrev pub mask : SocketAddr → Bytes → Bytes
mask (SocketAddr.v4 octets port) key =
    0 ∷ 1 ∷ to_be_bytes 2 (bit_xor port (port_key key)) ++ xor_bytes octets key
mask (SocketAddr.v6 octets port flowinfo scope_id) key =
    0 ∷ 2 ∷ to_be_bytes 2 (bit_xor port (port_key key)) ++ xor_bytes octets key

-- A socket address without a flow label or a scope.
abbrev pub IsPlain : SocketAddr → Type 0
IsPlain (SocketAddr.v4 octets port) = Unit
IsPlain (SocketAddr.v6 octets port flowinfo scope_id) = (flowinfo ≡ 0) × (scope_id ≡ 0)

masked_port :
    (port : ℕ) (key : Bytes)
    → port < 2 ^ 16
    → port_key key < 2 ^ 16
    → bit_xor (from_be_bytes (to_be_bytes 2 (bit_xor port (port_key key)))) (port_key key) ≡ port
masked_port port key h k =
    rw
      (from_be_bytes-to_be_bytes 2 (bit_xor port (port_key key))
        (bit_xor-lt 16 port (port_key key) h k))
      (xor_cancel port (port_key key))

-- Masking an address and reading it with the same key gives the address: the port, four or sixteen
-- octets, and neither flow label nor scope.
pub read_xor_address-mask :
    (s : SocketAddr) (key : Bytes)
    → IsAddr s
    → IsPlain s
    → port_key key < 2 ^ 16
    → read_xor_address (mask s key) key ≡ ok s
unfolding read_xor_address
read_xor_address-mask (SocketAddr.v4 octets port) key h plain k = ground (
  arith,
  length-xor_bytes octets key,
  take-all 4 (xor_bytes octets key),
  xor_bytes_cancel octets key,
  masked_port port key h.2 k,
)
read_xor_address-mask (SocketAddr.v6 octets port flowinfo scope_id) key h plain k =
    ground
      (arith, length-xor_bytes octets key, xor_bytes_cancel octets key, masked_port port key h.2 k)

length-mask :
    (s : SocketAddr) (key : Bytes)
    → IsAddr s
    → (length (mask s key) ≡ 8) ⊎ (length (mask s key) ≡ 20)
length-mask (SocketAddr.v4 octets port) key h = inl (omega (arith, length-xor_bytes octets key))
length-mask (SocketAddr.v6 octets port flowinfo scope_id) key h =
    inr (omega (arith, length-xor_bytes octets key))

-- A binding response with one XOR-MAPPED-ADDRESS and no other attribute.
abbrev pub xor_response : ℕ → SocketAddr → Bytes
xor_response id s =
    let body = tlv xor_mapped_address_type (mask s (xor_key id)) [] in
    header binding_response (length body) id ++ body

xor_response-Answers :
    (id : ℕ) (s : SocketAddr)
    → IsAddr s
    → IsPlain s
    → Answers id (xor_response id s) (record {
      mapped_address = s;
      source_address = none;
      changed_address = none;
      reflected_from = none;
    })
unfolding read_value
xor_response-Answers id s h plain = record {
  body = tlv xor_mapped_address_type (mask s (xor_key id)) [];
  attributes = Attribute.mapped_address s ∷ [];
  fits = omega (arith, length-mask s (xor_key id) h, length-append (mask s (xor_key id)) []);
  message = refl;
  grammar =
      item xor_mapped_address_type (mask s (xor_key id)) [] (omega arith)
        (omega (arith, length-mask s (xor_key id) h)) (omega (arith, length-mask s (xor_key id) h))
        (rw (read_xor_address-mask s (xor_key id) h plain (omega arith))) tt (sym (append-nil _))
        end;
  mapped = refl;
  source = refl;
  changed = refl;
  reflected = refl;
}

-- A server that masks an address with the cookie and the transaction of the request and answers with
-- it alone is decoded to that address, for IPv4 and IPv6.
pub decode_const-xor_response :
    (id : ℕ) (s : SocketAddr)
    → id < 2 ^ 64
    → IsAddr s
    → IsPlain s
    → decode_const id (xor_response id s)
      ≡ some (
          ok (
            some (
              Response.bind (record {
                mapped_address = s;
                source_address = none;
                changed_address = none;
                reflected_from = none;
              }))))
decode_const-xor_response id s small h plain =
    decode_const-Answers id (xor_response id s) _ small (xor_response-Answers id s h plain)
