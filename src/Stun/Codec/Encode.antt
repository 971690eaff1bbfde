-- ===== src/Stun/Codec/Encode.antt =====
-- The encoding half of src/stun/codec.rs. A function that fails has written nothing to its buffer.
use p2p_tunnler.Prelude.{
  ℕ, ◌-◌, ◌*◌, ◌%◌, ◌^◌, ◌≡◌, refl, Option, none, some, [], ◌∷◌, ◌++◌, ltb, if◌then◌else◌, length,
  replicate, ok, err, ◌>>=◌,
}
use p2p_tunnler.Net.{Bytes, SocketAddr}
use p2p_tunnler.Wire.{IoResult, invalid_input, to_be_bytes}
use p2p_tunnler.Stun.Codec.Types.{
  magic_cookie, ChangeRequest, BindRequest, Request, Attribute, binding_request,
  mapped_address_type, response_address_type, change_request_type, source_address_type,
  changed_address_type, username_type, message_integrity_type, reflected_from_type,
  change_request_ip, change_request_port, change_request_ip_and_port,
}

-- `u16::try_from` of a length.
abbrev pub u16_try_from : ℕ → IoResult ℕ
u16_try_from n = if ltb n (2 ^ 16) then ok n else err invalid_input

unfoldable pub encode_address : SocketAddr → IoResult Bytes
encode_address (SocketAddr.v4 octets port) = ok (0x00 ∷ 0x01 ∷ to_be_bytes 2 port ++ octets)
encode_address (SocketAddr.v6 octets port flowinfo scope_id) = err invalid_input

unfoldable pub encode_change_request : ChangeRequest → Bytes
encode_change_request ChangeRequest.none = []
encode_change_request ChangeRequest.ip = to_be_bytes 4 change_request_ip
encode_change_request ChangeRequest.port = to_be_bytes 4 change_request_port
encode_change_request ChangeRequest.ip_and_port = to_be_bytes 4 change_request_ip_and_port

unfoldable pub pad_username : Bytes → Bytes
pad_username u = let padding_len = (4 - length u % 4) % 4 in u ++ replicate padding_len 0x00

-- The type and the value of an attribute.
unfoldable pub opaque : Attribute → IoResult (ℕ × Bytes)
unfolding encode_address encode_change_request pad_username
opaque (Attribute.mapped_address s) = do v ← encode_address s; ok (mapped_address_type, v)
opaque (Attribute.response_address s) = do v ← encode_address s; ok (response_address_type, v)
opaque (Attribute.changed_address s) = do v ← encode_address s; ok (changed_address_type, v)
opaque (Attribute.source_address s) = do v ← encode_address s; ok (source_address_type, v)
opaque (Attribute.reflected_from s) = do v ← encode_address s; ok (reflected_from_type, v)
opaque (Attribute.message_integrity h) = ok (message_integrity_type, h)
opaque (Attribute.username u) = ok (username_type, pad_username u)
opaque (Attribute.change_request c) = ok (change_request_type, encode_change_request c)
opaque Attribute.unknown_optional = err invalid_input

-- `Attribute::encode`.
unfoldable pub encode_attribute : Attribute → Bytes → IoResult Bytes
encode_attribute a buf = do
  (typ, value) ← opaque a
  opaque_length ← u16_try_from (length value)
  ok (buf ++ (to_be_bytes 2 typ ++ (to_be_bytes 2 opaque_length ++ value)))

unfoldable pub encode_response_address : Option SocketAddr → Bytes → IoResult Bytes
encode_response_address none buf = ok buf
encode_response_address (some a) buf = encode_attribute (Attribute.response_address a) buf

unfoldable pub encode_change : ChangeRequest → Bytes → IoResult Bytes
encode_change ChangeRequest.none buf = ok buf
encode_change r buf = encode_attribute (Attribute.change_request r) buf

unfoldable pub encode_username : Option Bytes → Bytes → IoResult Bytes
encode_username none buf = ok buf
encode_username (some u) buf = encode_attribute (Attribute.username u) buf

-- `BindRequest::encode`.
unfoldable pub encode_bind : BindRequest → IoResult Bytes
unfolding encode_response_address encode_change encode_username
encode_bind r = do
  buf ← encode_response_address r.response_address []
  buf ← encode_change r.change_request buf
  encode_username r.username buf

unfoldable pub request_body : Request → IoResult (ℕ × Bytes)
request_body (Request.bind r) = do m ← encode_bind r; ok (binding_request, m)
request_body Request.shared_secret = err invalid_input

-- The header: type, length, the magic cookie with four zero bytes, the transaction.
abbrev pub header : ℕ → ℕ → ℕ → Bytes
header typ message_length trans_id =
    to_be_bytes 2 typ
    ++ (to_be_bytes 2 message_length
        ++ (to_be_bytes 8 (magic_cookie * 2 ^ 32) ++ to_be_bytes 8 trans_id))

unfoldable pub write_message : ℕ → Bytes → IoResult (ℕ × ℕ × Bytes) → IoResult (Unit {0}) × Bytes
write_message trans_id buf (ok (typ, message_length, m)) =
    (ok tt, buf ++ (header typ message_length trans_id ++ m))
write_message trans_id buf (err e) = (err e, buf)

-- `StunCodec::encode`: the result, and the buffer afterwards.
unfoldable pub encode : ℕ × Request → Bytes → IoResult (Unit {0}) × Bytes
unfolding write_message
encode (trans_id, req) buf = write_message trans_id buf do
  (typ, m) ← request_body req
  message_length ← u16_try_from (length m)
  ok (typ, message_length, m)

abbrev pub with_peer : SocketAddr → IoResult (Unit {0}) × Bytes → IoResult (Bytes × SocketAddr)
with_peer peer (ok u, buf) = ok (buf, peer)
with_peer peer (err e, buf) = err e

-- What the sink of `StunCodec::encode_sink` hands on for an item.
unfoldable pub encode_sink : (ℕ × Request) × SocketAddr → IoResult (Bytes × SocketAddr)
encode_sink ((id, req), peer) = with_peer peer (encode (id, req) [])

-- The binding request of the unit tests: both change flags, and the user name foo.
encode_binding_request :
    (encode
      (
        0x123456789,
        Request.bind (record {
          response_address = none;
          change_request = ChangeRequest.ip_and_port;
          username = some (0x66 ∷ 0x6f ∷ 0x6f ∷ []);
        }),
      )
      []).1
    ≡ 0x00 ∷ 0x01 ∷ 0x00 ∷ 0x10 ∷ 0x21 ∷ 0x12 ∷ 0xa4 ∷ 0x42 ∷ 0x00 ∷ 0x00 ∷ 0x00 ∷ 0x00 ∷ 0x00
      ∷ 0x00 ∷ 0x00 ∷ 0x01 ∷ 0x23 ∷ 0x45 ∷ 0x67 ∷ 0x89 ∷ 0x00 ∷ 0x03 ∷ 0x00 ∷ 0x04 ∷ 0x00 ∷ 0x00
      ∷ 0x00 ∷ 0x60 ∷ 0x00 ∷ 0x06 ∷ 0x00 ∷ 0x04 ∷ 0x66 ∷ 0x6f ∷ 0x6f ∷ 0x00 ∷ []
unfolding encode request_body encode_bind encode_attribute opaque
encode_binding_request = refl
