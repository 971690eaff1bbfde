-- ===== src/Stun/Codec/Decode.antt =====
-- The decoding half of src/stun/codec.rs. `usize` has 64 bits.
use Prim.Native.Nat.{bit_xor}
use p2p_tunnler.Prelude.{
  ℕ, zero, suc, ◌+◌, ◌*◌, ◌/◌, ◌^◌, ◌&&◌, Option, none, some, [], ◌∷◌, ◌++◌, ltb, leb, ◌==◌, not,
  if◌then◌else◌, length, slice, drop, get_or, ok, err, ensure, ok_or, ◌>>=◌, ◌>>◌,
}
use p2p_tunnler.Net.{Bytes, SocketAddr}
use p2p_tunnler.Wire.{
  IoResult, invalid_data, unexpected_eof, to_be_bytes, from_be_bytes, Cursor, read_uint,
}
use p2p_tunnler.Stun.Codec.Types.{
  magic_cookie, ChangeRequest, BindResponse, Response, Attribute, binding_response,
  mapped_address_type, response_address_type, change_request_type, source_address_type,
  changed_address_type, message_integrity_type, reflected_from_type, xor_mapped_address_type,
  change_request_ip, change_request_port, change_request_ip_and_port,
}

abbrev pub checked_add : ℕ → ℕ → IoResult ℕ
checked_add a b = if ltb (a + b) (2 ^ 64) then ok (a + b) else err invalid_data

unfoldable pub read_address : Bytes → IoResult SocketAddr
read_address value =
    if ltb (length value) 4
    then err unexpected_eof
    else let port = from_be_bytes (slice 2 4 value) in
      let family = get_or value 1 0 in
      if family == 0x01 && length value == 8
      then ok (SocketAddr.v4 (slice 4 8 value) port)
      else if family == 0x02 && length value == 20
      then ok (SocketAddr.v6 (drop 4 value) port 0 0)
      else err invalid_data

-- Byte by byte, as far as the first list goes.
abbrev pub xor_bytes : Bytes → Bytes → Bytes
xor_bytes [] ks = []
xor_bytes (b ∷ bs) [] = b ∷ bs
xor_bytes (b ∷ bs) (k ∷ ks) = bit_xor b k ∷ xor_bytes bs ks

unfoldable pub read_xor_address : Bytes → Bytes → IoResult SocketAddr
read_xor_address value xor_key =
    if ltb (length value) 4
    then err unexpected_eof
    else let port = bit_xor (from_be_bytes (slice 2 4 value)) (from_be_bytes (slice 0 2 xor_key)) in
      let family = get_or value 1 0 in
      if family == 0x01 && length value == 8
      then ok (SocketAddr.v4 (xor_bytes (slice 4 8 value) xor_key) port)
      else if family == 0x02 && length value == 20
      then ok (SocketAddr.v6 (xor_bytes (drop 4 value) xor_key) port 0 0)
      else err invalid_data

unfoldable pub read_change_request : Bytes → IoResult ChangeRequest
read_change_request (a ∷ b ∷ c ∷ d ∷ []) =
    let value = from_be_bytes (a ∷ b ∷ c ∷ d ∷ []) in
    if value == change_request_ip
    then ok ChangeRequest.ip
    else if value == change_request_port
    then ok ChangeRequest.port
    else if value == change_request_ip_and_port
    then ok ChangeRequest.ip_and_port
    else err invalid_data
read_change_request value = err invalid_data

unfoldable pub read_message_integrity : Bytes → IoResult Bytes
read_message_integrity value = if length value == 20 then ok value else err invalid_data

-- The `match typ` of `Attribute::read`.
unfoldable pub read_value : ℕ → Bytes → Bytes → IoResult Attribute
read_value typ value xor_key =
    if typ == xor_mapped_address_type
    then (do a ← read_xor_address value xor_key; ok (Attribute.mapped_address a))
    else if typ == mapped_address_type
    then (do a ← read_address value; ok (Attribute.mapped_address a))
    else if typ == response_address_type
    then (do a ← read_address value; ok (Attribute.response_address a))
    else if typ == changed_address_type
    then (do a ← read_address value; ok (Attribute.changed_address a))
    else if typ == source_address_type
    then (do a ← read_address value; ok (Attribute.source_address a))
    else if typ == reflected_from_type
    then (do a ← read_address value; ok (Attribute.reflected_from a))
    else if typ == message_integrity_type
    then (do h ← read_message_integrity value; ok (Attribute.message_integrity h))
    else if typ == change_request_type
    then (do c ← read_change_request value; ok (Attribute.change_request c))
    else if leb typ 0x7fff
    then err invalid_data
    else ok Attribute.unknown_optional

-- `(length + 3) & !3`.
abbrev pub round_up : ℕ → IoResult ℕ
round_up length = do n ← checked_add length 3; ok (n / 4 * 4)

-- `Attribute::read` after the type and the length: the value, and the cursor behind its padding.
unfoldable pub read_padded : ℕ → ℕ → Cursor → Bytes → IoResult (Attribute × Cursor)
read_padded typ len c xor_key = do
  padded_length ← round_up len
  end ← checked_add c.position len
  padded_end ← checked_add c.position padded_length
  ensure (leb padded_end (length c.get_ref)) unexpected_eof
  a ← read_value typ (slice c.position end c.get_ref) xor_key
  ok (a, record c { position = padded_end })

-- `Attribute::read`.
unfoldable pub read_attribute : Cursor → Bytes → IoResult (Attribute × Cursor)
unfolding read_padded
read_attribute c xor_key = do
  (typ, c) ← read_uint 2 c
  (len, c) ← read_uint 2 c
  read_padded typ len c xor_key

-- The locals of `read_binding_response`.
pub record Fields : Type 0 where
  pub mapped : Option SocketAddr
  pub source : Option SocketAddr
  pub changed : Option SocketAddr
  pub reflected : Option SocketAddr

abbrev pub no_fields : Fields
no_fields = record { mapped = none; source = none; changed = none; reflected = none }

abbrev pub get_or_insert : Option SocketAddr → SocketAddr → Option SocketAddr
get_or_insert none s = some s
get_or_insert (some old) s = some old

-- The `match attr` of the loop.
unfoldable pub note_attribute : Attribute → Fields → IoResult Fields
note_attribute (Attribute.mapped_address s) f = ok (record f { mapped = get_or_insert f.mapped s })
note_attribute (Attribute.source_address s) f = ok (record f { source = get_or_insert f.source s })
note_attribute (Attribute.changed_address s) f =
    ok (record f { changed = get_or_insert f.changed s })
note_attribute (Attribute.reflected_from s) f =
    ok (record f { reflected = get_or_insert f.reflected s })
note_attribute (Attribute.message_integrity h) f = ok f
note_attribute Attribute.unknown_optional f = ok f
note_attribute a f = err invalid_data

-- The `while` loop, with fuel; `none` means that the fuel ran out.
unfoldable pub read_attributes : ℕ → Cursor → Bytes → Fields → Option (IoResult Fields)
read_attributes zero c xor_key f = none
read_attributes (suc fuel) c xor_key f =
    let rest : Option (IoResult Fields) = elim (read_attribute c xor_key) [
      | err e ↦ some (err invalid_data)
      | ok (a, c') ↦ elim (note_attribute a f) [
        | err e ↦ some (err invalid_data)
        | ok f' ↦ read_attributes fuel c' xor_key f'
      ]
    ] in
    if ltb c.position (length c.get_ref) then rest else some (ok f)

abbrev pub bind_response : Fields → IoResult BindResponse
bind_response f = do
  mapped ← ok_or f.mapped invalid_data
  ok (record {
    mapped_address = mapped;
    source_address = f.source;
    changed_address = f.changed;
    reflected_from = f.reflected;
  })

-- What follows the loop.
abbrev pub conclude : Option (IoResult Fields) → Option (IoResult BindResponse)
conclude none = none
conclude (some (err e)) = some (err e)
conclude (some (ok f)) = some (bind_response f)

-- `StunCodec::read_binding_response`: each round reads a byte at least, so the fuel suffices.
unfoldable pub read_binding_response : Cursor → Bytes → Option (IoResult BindResponse)
read_binding_response c xor_key =
    conclude (read_attributes (suc (length c.get_ref)) c xor_key no_fields)

abbrev pub map_bind : Option (IoResult BindResponse) → Option (IoResult (Option Response))
map_bind none = none
map_bind (some r) = some (do b ← r; ok (some (Response.bind b)))

-- The `match msg_type`.
unfoldable pub read_body : ℕ → Cursor → Bytes → Option (IoResult (Option Response))
read_body msg_type c xor_key =
    if msg_type == binding_response
    then map_bind (read_binding_response c xor_key)
    else some (err invalid_data)

-- The four integers of the header.
unfoldable pub read_header : Bytes → IoResult (ℕ × ℕ × ℕ × ℕ)
read_header msg = do
  (msg_type, c) ← read_uint 2 (record { get_ref = msg; position = 0 })
  (message_length, c) ← read_uint 2 c
  (trans_id1, c) ← read_uint 8 c
  (trans_id2, c) ← read_uint 8 c
  ok (msg_type, message_length, trans_id1, trans_id2)

abbrev pub cookie_word : ℕ
cookie_word = magic_cookie * 2 ^ 32

-- What follows the header: the transaction, the cookie, the length, then the body.
unfoldable pub check_header : ℕ → Bytes → ℕ × ℕ × ℕ × ℕ → Option (IoResult (Option Response))
check_header expected_id msg (msg_type, message_length, trans_id1, trans_id2) =
    if not (trans_id2 == expected_id)
    then some (ok none)
    else if not (trans_id1 == cookie_word)
    then some (err invalid_data)
    else elim (checked_add 20 message_length) [
      | err e ↦ some (err e)
      | ok message_end ↦
          if not (length msg == message_end)
          then some (err invalid_data)
          else read_body msg_type (record { get_ref = drop 20 msg; position = 0 })
              (to_be_bytes 8 trans_id1 ++ to_be_bytes 8 trans_id2)
    ]

abbrev pub after_header : ℕ → Bytes → IoResult (ℕ × ℕ × ℕ × ℕ) → Option (IoResult (Option Response))
after_header expected_id msg (err e) = some (err e)
after_header expected_id msg (ok h) = check_header expected_id msg h

-- `StunCodec::decode_const`. `none` outside would mean that the loop ran out of fuel.
unfoldable pub decode_const : ℕ → Bytes → Option (IoResult (Option Response))
decode_const expected_id msg = after_header expected_id msg (read_header msg)
