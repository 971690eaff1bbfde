-- ===== src/Stun/Codec/RoundTrip.antt =====
-- `Attribute::read` after `Attribute::encode`.
use p2p_tunnler.Prelude.{
  ℕ, ◌+◌, ◌*◌, ◌/◌, ◌^◌, ◌≤◌, ◌<◌, ◌≡◌, refl, sym, ap, ◌∙◌, [], ◌∷◌, ◌++◌, arith, length,
  length-append, lt→ltb, drop-append, append-nil, append_assoc, ok,
}
use p2p_tunnler.Net.{Bytes, SocketAddr}
use p2p_tunnler.Wire.{to_be_bytes, from_be_bytes-to_be_bytes}
use p2p_tunnler.Stun.Codec.Types.{ChangeRequest, Attribute}
use p2p_tunnler.Stun.Codec.Encode.{encode_address, opaque, encode_attribute}
use p2p_tunnler.Stun.Codec.Decode.{
  read_address, read_value, read_attribute, read_message_integrity, read_change_request,
}
use p2p_tunnler.Stun.Codec.Tlv.{tlv, length-tlv, read_attribute-tlv}

-- An IPv4 socket address.
abbrev pub IsIpv4 : SocketAddr → Type 0
IsIpv4 (SocketAddr.v4 octets port) = (length octets ≡ 4) × (port < 2 ^ 16)
IsIpv4 (SocketAddr.v6 octets port flowinfo scope_id) = ⊥

-- The attributes whose encoding `Attribute::read` understands: those with an IPv4 address, a change
-- request with a flag, a digest of 20 bytes.
abbrev pub IsReadable : Attribute → Type 0
IsReadable (Attribute.mapped_address s) = IsIpv4 s
IsReadable (Attribute.response_address s) = IsIpv4 s
IsReadable (Attribute.changed_address s) = IsIpv4 s
IsReadable (Attribute.source_address s) = IsIpv4 s
IsReadable (Attribute.reflected_from s) = IsIpv4 s
IsReadable (Attribute.change_request ChangeRequest.none) = ⊥
IsReadable (Attribute.change_request c) = Unit
IsReadable (Attribute.message_integrity h) = length h ≡ 20
IsReadable (Attribute.username u) = ⊥
IsReadable Attribute.unknown_optional = ⊥

read_address-encode_address :
    (s : SocketAddr)
    → IsIpv4 s
    → (v : Bytes) × (encode_address s ≡ ok v) × (length v ≡ 8) × (read_address v ≡ ok s)
unfolding encode_address read_address
read_address-encode_address (SocketAddr.v4 (a ∷ b ∷ c ∷ d ∷ []) port) h = (
  0x00 ∷ 0x01 ∷ to_be_bytes 2 port ++ a ∷ b ∷ c ∷ d ∷ [],
  refl,
  refl,
  ap (λ (p : ℕ). ok (SocketAddr.v4 (a ∷ b ∷ c ∷ d ∷ []) p)) (from_be_bytes-to_be_bytes 2 port h.1),
)
read_address-encode_address (SocketAddr.v4 _ port) h = absurd (omega arith)
read_address-encode_address (SocketAddr.v6 octets port flowinfo scope_id) h = absurd h

-- What an attribute is encoded to, and that its value reads back under any key.
abbrev Reads : Bytes → Attribute → Type 0
Reads key a =
    (typ : ℕ) × (v : Bytes) × (opaque a ≡ ok (typ, v))
    × (typ < 2 ^ 16)
    × (length v ≤ 20)
    × (length v ≡ (length v + 3) / 4 * 4)
    × (read_value typ v key ≡ ok a)

module _ (key : Bytes) where
  read_value-opaque : (a : Attribute) → IsReadable a → Reads key a
  unfolding opaque read_value read_message_integrity read_change_request
  read_value-opaque (Attribute.mapped_address s) h =
      let (v, e, n, r) = read_address-encode_address s h in
      (1, v, rw e, omega arith, omega arith, omega arith, rw r)
  read_value-opaque (Attribute.response_address s) h =
      let (v, e, n, r) = read_address-encode_address s h in
      (2, v, rw e, omega arith, omega arith, omega arith, rw r)
  read_value-opaque (Attribute.changed_address s) h =
      let (v, e, n, r) = read_address-encode_address s h in
      (5, v, rw e, omega arith, omega arith, omega arith, rw r)
  read_value-opaque (Attribute.source_address s) h =
      let (v, e, n, r) = read_address-encode_address s h in
      (4, v, rw e, omega arith, omega arith, omega arith, rw r)
  read_value-opaque (Attribute.reflected_from s) h =
      let (v, e, n, r) = read_address-encode_address s h in
      (11, v, rw e, omega arith, omega arith, omega arith, rw r)
  read_value-opaque (Attribute.change_request ChangeRequest.none) h = absurd h
  read_value-opaque (Attribute.change_request ChangeRequest.ip) h =
      (3, to_be_bytes 4 0x20, refl, omega arith, omega arith, omega arith, refl)
  read_value-opaque (Attribute.change_request ChangeRequest.port) h =
      (3, to_be_bytes 4 0x40, refl, omega arith, omega arith, omega arith, refl)
  read_value-opaque (Attribute.change_request ChangeRequest.ip_and_port) h =
      (3, to_be_bytes 4 0x60, refl, omega arith, omega arith, omega arith, refl)
  read_value-opaque (Attribute.message_integrity v) h =
      (8, v, refl, omega arith, omega arith, omega arith, ground arith)
  read_value-opaque (Attribute.username u) h = absurd h
  read_value-opaque Attribute.unknown_optional h = absurd h

  -- An attribute with an IPv4 address, a change request with a flag or a digest of 20 bytes encodes,
  -- whatever stands in the buffer before; and `Attribute::read` at that place of the buffer, whatever
  -- follows, gives the attribute back and leaves the cursor at the end of what was written.
  pub read_attribute-encode_attribute :
      (a : Attribute) (before rest : Bytes)
      → IsReadable a
      → length before + length rest < 2 ^ 32
      → (buf : Bytes) × (encode_attribute a before ≡ ok buf)
        × (read_attribute (record { get_ref = buf ++ rest; position = length before }) key
            ≡ ok (a, record { get_ref = buf ++ rest; position = length buf }))
  unfolding encode_attribute
  read_attribute-encode_attribute a before rest h room =
      let (typ, v, enc, small, short, aligned, back) = read_value-opaque a h in
      (
        before ++ tlv typ v [],
        rw (enc, lt→ltb (length v) (2 ^ 16) (omega arith))
            (ap
              (λ (t : Bytes). ok (before ++ (to_be_bytes 2 typ ++ (to_be_bytes 2 (length v) ++ t))))
              (sym (append-nil v))),
        read_attribute-tlv
              (record { get_ref = (before ++ tlv typ v []) ++ rest; position = length before }) typ
              v [] rest key small (omega arith) (omega arith)
              (omega (
                arith,
                length-append (before ++ tlv typ v []) rest,
                length-append before (tlv typ v []),
                length-tlv typ v [],
              ))
              (rw (append_assoc before (tlv typ v []) rest)
                (drop-append (length before) before _ refl))
            ∙ rw back (
                ap
                  (λ (p : ℕ).
                    ok (a, record { get_ref = (before ++ tlv typ v []) ++ rest; position = p }))
                  (sym (length-append before (tlv typ v [])))),
      )
