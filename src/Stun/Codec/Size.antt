-- ===== src/Stun/Codec/Size.antt =====
-- Which requests can be encoded, and the size of what is written.
use p2p_tunnler.Prelude.{
  ℕ, ◌+◌, ◌-◌, ◌*◌, ◌/◌, ◌%◌, ◌^◌, ◌<◌, ◌≡◌, ◌↔◌, refl, ap, Option, none, some, List, [], ◌∷◌, ◌++◌,
  arith, length, length-append, length-replicate, replicate, ok,
}
use p2p_tunnler.Net.{Bytes, SocketAddr}
use p2p_tunnler.Wire.{to_be_bytes}
use p2p_tunnler.Stun.Codec.Types.{ChangeRequest, BindRequest, Request, Attribute}
use p2p_tunnler.Stun.Codec.Encode.{pad_username, opaque, encode, encode_change_request}
use p2p_tunnler.Stun.Codec.Layout.{
  Written, nothing, more, piece, request_attributes, address_part, change_part, name_part,
}
use p2p_tunnler.Stun.Codec.Request.{encode-IsMessage, IsMessage-encode}

-- Its type gives an address four octets.
abbrev pub HasOctets : SocketAddr → Type 0
HasOctets (SocketAddr.v4 octets port) = length octets ≡ 4
HasOctets (SocketAddr.v6 octets port flowinfo scope_id) = Unit

abbrev pub IsV4 : SocketAddr → Type 0
IsV4 (SocketAddr.v4 octets port) = Unit
IsV4 (SocketAddr.v6 octets port flowinfo scope_id) = ⊥

abbrev IsSized : Attribute → Type 0
IsSized (Attribute.response_address s) = HasOctets s
IsSized (Attribute.change_request c) = Unit
IsSized (Attribute.username u) = Unit
IsSized a = ⊥

-- The bytes of an attribute of a request, its header included.
abbrev pub attribute_size : Attribute → ℕ
attribute_size (Attribute.response_address s) = 12
attribute_size (Attribute.change_request ChangeRequest.none) = 4
attribute_size (Attribute.change_request c) = 8
attribute_size (Attribute.username u) = 4 + (length u + 3) / 4 * 4
attribute_size a = 0

abbrev pub total_size : List Attribute → ℕ
total_size [] = 0
total_size (a ∷ attributes) = attribute_size a + total_size attributes

abbrev AllOf : (Attribute → Type 0) → List Attribute → Type 0
AllOf P [] = Unit
AllOf P (a ∷ attributes) = P a × AllOf P attributes

length-pad_username : (u : Bytes) → length (pad_username u) ≡ (length u + 3) / 4 * 4
unfolding pad_username
length-pad_username u = omega (
  arith,
  length-append u (replicate ((4 - length u % 4) % 4) 0),
  length-replicate {A = ℕ} ((4 - length u % 4) % 4) 0,
)

opaque-size :
    (a : Attribute) (typ : ℕ) (v : Bytes)
    → IsSized a
    → opaque a ≡ ok (typ, v)
    → 4 + length v ≡ attribute_size a
unfolding opaque
opaque-size (Attribute.response_address (SocketAddr.v4 octets port)) typ v h e =
    ground (arith, length-append (to_be_bytes 2 port) octets)
opaque-size (Attribute.response_address (SocketAddr.v6 octets port flowinfo scope_id)) typ v h e =
    cc
opaque-size (Attribute.change_request ChangeRequest.none) typ v h e = ground arith
opaque-size (Attribute.change_request ChangeRequest.ip) typ v h e = ground arith
opaque-size (Attribute.change_request ChangeRequest.port) typ v h e = ground arith
opaque-size (Attribute.change_request ChangeRequest.ip_and_port) typ v h e = ground arith
opaque-size (Attribute.username u) typ v h e = ground (arith, length-pad_username u)
opaque-size (Attribute.mapped_address s) typ v h e = absurd h
opaque-size (Attribute.changed_address s) typ v h e = absurd h
opaque-size (Attribute.source_address s) typ v h e = absurd h
opaque-size (Attribute.reflected_from s) typ v h e = absurd h
opaque-size (Attribute.message_integrity x) typ v h e = absurd h
opaque-size Attribute.unknown_optional typ v h e = absurd h

Written-size :
    {attributes : List Attribute} {m : Bytes}
    → AllOf IsSized attributes
    → Written attributes m
    → length m ≡ total_size attributes
Written-size h nothing = refl
Written-size h (more {a = a} {rest = rest} typ v o fits w eq) =
    omega (arith, ap length eq, length-append v rest, opaque-size a typ v h.0 o, Written-size h.1 w)

-- Of the attributes of a request only an IPv6 address has no encoding.
abbrev Encodable : Attribute → Type 0
Encodable (Attribute.response_address s) = IsV4 s
Encodable a = Unit

opaque-Encodable :
    (a : Attribute) → IsSized a → Encodable a → (typ : ℕ) × (v : Bytes) × (opaque a ≡ ok (typ, v))
unfolding opaque
opaque-Encodable (Attribute.response_address (SocketAddr.v4 octets port)) h k =
    (2, 0x00 ∷ 0x01 ∷ to_be_bytes 2 port ++ octets, refl)
opaque-Encodable (Attribute.response_address (SocketAddr.v6 octets port flowinfo scope_id)) h k =
    absurd k
opaque-Encodable (Attribute.change_request c) h k = (3, encode_change_request c, refl)
opaque-Encodable (Attribute.username u) h k = (6, pad_username u, refl)
opaque-Encodable (Attribute.mapped_address s) h k = absurd h
opaque-Encodable (Attribute.changed_address s) h k = absurd h
opaque-Encodable (Attribute.source_address s) h k = absurd h
opaque-Encodable (Attribute.reflected_from s) h k = absurd h
opaque-Encodable (Attribute.message_integrity x) h k = absurd h
opaque-Encodable Attribute.unknown_optional h k = absurd h

opaque-IsV4 :
    (s : SocketAddr) (typ : ℕ) (v : Bytes)
    → opaque (Attribute.response_address s) ≡ ok (typ, v)
    → IsV4 s
unfolding opaque
opaque-IsV4 (SocketAddr.v4 octets port) typ v e = tt
opaque-IsV4 (SocketAddr.v6 octets port flowinfo scope_id) typ v e = cc

Written-exists :
    (attributes : List Attribute)
    → AllOf IsSized attributes
    → AllOf Encodable attributes
    → total_size attributes < 2 ^ 16
    → (m : Bytes) × Written attributes m
Written-exists [] h k small = ([], nothing)
Written-exists (a ∷ attributes) h k small =
    let (typ, v, o) = opaque-Encodable a h.0 k.0 in
    let (m, w) = Written-exists attributes h.1 k.1 (omega arith) in
    (piece typ v ++ m, more typ v o (omega (arith, opaque-size a typ v h.0 o)) w refl)

-- Of an address, if there is one.
abbrev pub OnSome : (SocketAddr → Type 0) → Option SocketAddr → Type 0
OnSome P none = Unit
OnSome P (some s) = P s

-- The size of the body of a request.
abbrev pub body_size : BindRequest → ℕ
body_size r = total_size (request_attributes r)

module _ (P : Attribute → Type 0) where
  AllOf-append : (xs ys : List Attribute) → AllOf P xs → AllOf P ys → AllOf P (xs ++ ys)
  AllOf-append [] ys h k = k
  AllOf-append (x ∷ xs) ys h k = (h.0, AllOf-append xs ys h.1 k)

  -- A property of the attributes of a request, from those that it may have.
  AllOf-request :
      (Q : SocketAddr → Type 0)
      → ((s : SocketAddr) → Q s → P (Attribute.response_address s))
      → ((c : ChangeRequest) → P (Attribute.change_request c))
      → ((u : Bytes) → P (Attribute.username u))
      → (o : Option SocketAddr) (c : ChangeRequest) (n : Option Bytes) → OnSome Q o
      → AllOf P (address_part o ++ (change_part c ++ name_part n))
  AllOf-request Q pa pc pn o c n h =
      AllOf-append (address_part o) _ (address o h)
        (AllOf-append (change_part c) _ (change c) (name n))
    where
      address : (o : Option SocketAddr) → OnSome Q o → AllOf P (address_part o)
      address none h = tt
      address (some s) h = (pa s h, tt)

      change : (c : ChangeRequest) → AllOf P (change_part c)
      change ChangeRequest.none = tt
      change ChangeRequest.ip = (pc ChangeRequest.ip, tt)
      change ChangeRequest.port = (pc ChangeRequest.port, tt)
      change ChangeRequest.ip_and_port = (pc ChangeRequest.ip_and_port, tt)

      name : (n : Option Bytes) → AllOf P (name_part n)
      name none = tt
      name (some u) = (pn u, tt)

address-IsV4 :
    (o : Option SocketAddr) (rest : List Attribute) {m : Bytes}
    → Written (address_part o ++ rest) m
    → OnSome IsV4 o
address-IsV4 none rest w = tt
address-IsV4 (some s) rest (more typ v o fits w eq) = opaque-IsV4 s typ v o

-- A binding request can be encoded exactly when it has no IPv6 response address and its body, twelve
-- bytes for an address, eight for a change and four and the padded name for a user name, is shorter
-- than 2 ^ 16; and its message then has twenty bytes more than the body.
pub encode_ok_iff :
    (id : ℕ) (r : BindRequest) (buf : Bytes)
    → OnSome HasOctets r.response_address
    → ((encode (id, Request.bind r) buf).0 ≡ ok tt) ↔ (
        OnSome IsV4 r.response_address
        × (body_size r < 2 ^ 16)
        × (length (encode (id, Request.bind r) buf).1 ≡ length buf + 20 + body_size r))
encode_ok_iff id r buf h = (
  λ e.
      let (bytes, w, eq) = encode-IsMessage id r buf e in
      let size = Written-size (parts_sized r h) w.written in
      (
        address-IsV4 r.response_address _ w.written,
        omega (arith, size, w.fits),
        omega (arith, size, ap length eq, ap length w.layout, length-append buf bytes),
      ),
  λ (v4, small, _).
      let (m, w) = Written-exists (request_attributes r) (parts_sized r h) (parts_v4 r v4) small in
      ap (λ p. p.0)
        (IsMessage-encode id r buf _ (record {
          body = m;
          written = w;
          fits = omega (arith, Written-size (parts_sized r h) w);
          layout = refl;
        })),
)
  where
    parts_sized :
        (r : BindRequest)
        → OnSome HasOctets r.response_address
        → AllOf IsSized (request_attributes r)
    parts_sized r h =
        AllOf-request IsSized HasOctets (λ s q. q) (λ c. tt) (λ u. tt) r.response_address
          r.change_request r.username h

    parts_v4 :
        (r : BindRequest) → OnSome IsV4 r.response_address → AllOf Encodable (request_attributes r)
    parts_v4 r v4 =
        AllOf-request Encodable IsV4 (λ s q. q) (λ c. tt) (λ u. tt) r.response_address
          r.change_request r.username v4
