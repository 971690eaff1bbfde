-- ===== src/Stun/Codec/Message.antt =====
-- The bytes of a binding request, written out apart from the encoder, and that `StunCodec::encode` makes
-- them.
use p2p_tunnler.Prelude.{
  ℕ, ◌+◌, ◌-◌, ◌%◌, ◌^◌, ◌<◌, ◌≡◌, ◌↔◌, refl, ap, sym, ◌∙◌, Option, none, some, List, [], ◌∷◌, ◌++◌,
  arith, length, replicate, length-append, length-replicate, append-nil, append_assoc, ok, subst,
  ok-injective,
}
use p2p_tunnler.Net.{Bytes, SocketAddr}
use p2p_tunnler.Wire.{to_be_bytes}
use p2p_tunnler.Stun.Codec.Types.{ChangeRequest, BindRequest, Request, Attribute, binding_request}
use p2p_tunnler.Stun.Codec.Encode.{opaque, pad_username, header, encode}
use p2p_tunnler.Stun.Codec.Layout.{
  Written, nothing, more, piece, address_part, change_part, name_part,
}
use p2p_tunnler.Stun.Codec.Request.{IsMessage, encode_iff}
use p2p_tunnler.Stun.Codec.Size.{HasOctets, OnSome}

-- The response address: type 2, eight bytes, family 1, port and address. IPv6 has no bytes.
pub AddressBytes : Option SocketAddr → Bytes → Type 0
AddressBytes none m = m ≡ []
AddressBytes (some (SocketAddr.v4 octets port)) m =
    m ≡ 0 ∷ 2 ∷ 0 ∷ 8 ∷ 0 ∷ 1 ∷ to_be_bytes 2 port ++ octets
AddressBytes (some (SocketAddr.v6 octets port flowinfo scope_id)) m = ⊥

-- The change request: type 3, four bytes, of which the last has the flags 20 for the address and 40
-- for the port, in hexadecimal.
pub ChangeBytes : ChangeRequest → Bytes → Type 0
ChangeBytes ChangeRequest.none m = m ≡ []
ChangeBytes ChangeRequest.ip m = m ≡ 0 ∷ 3 ∷ 0 ∷ 4 ∷ 0 ∷ 0 ∷ 0 ∷ 0x20 ∷ []
ChangeBytes ChangeRequest.port m = m ≡ 0 ∷ 3 ∷ 0 ∷ 4 ∷ 0 ∷ 0 ∷ 0 ∷ 0x40 ∷ []
ChangeBytes ChangeRequest.ip_and_port m = m ≡ 0 ∷ 3 ∷ 0 ∷ 4 ∷ 0 ∷ 0 ∷ 0 ∷ 0x60 ∷ []

-- The user name: type 6, and the name with less than four zero bytes that make its length, which is the
-- length that is given, a multiple of four.
pub NameBytes : Option Bytes → Bytes → Type 0
NameBytes none m = m ≡ []
NameBytes (some u) m =
    (padding : ℕ) × (padding < 4)
    × ((length u + padding) % 4 ≡ 0)
    × (length u + padding < 2 ^ 16)
    × (m ≡ 0 ∷ 6 ∷ to_be_bytes 2 (length u + padding) ++ (u ++ replicate padding 0))

-- The message: type 1, the length of the body, the cookie 2112a442 with four zero bytes, the transaction,
-- and the three attributes in their order.
pub record IsEncoding (id : ℕ) (r : BindRequest) (bytes : Bytes) : Type 0 where
  pub address : Bytes
  pub change : Bytes
  pub name : Bytes
  pub has_address : AddressBytes r.response_address address
  pub has_change : ChangeBytes r.change_request change
  pub has_name : NameBytes r.username name
  pub fits : length (address ++ (change ++ name)) < 2 ^ 16
  pub layout :
      bytes
      ≡ 0 ∷ 1 ∷ to_be_bytes 2 (length (address ++ (change ++ name)))
        ++ (0x21 ∷ 0x12 ∷ 0xa4 ∷ 0x42 ∷ 0 ∷ 0 ∷ 0 ∷ 0 ∷ to_be_bytes 8 id
            ++ (address ++ (change ++ name)))

split-Written :
    (xs ys : List Attribute) (m : Bytes)
    → Written (xs ++ ys) m
    → (front : Bytes) × (back : Bytes) × Written xs front × Written ys back × (m ≡ front ++ back)
split-Written [] ys m w = ([], m, nothing, w, refl)
split-Written (x ∷ xs) ys m (more {rest = rest} typ v o fits w eq) =
    let (front, back, wf, wb, e) = split-Written xs ys rest w in
    (
      piece typ v ++ front,
      back,
      more typ v o fits wf refl,
      wb,
      eq ∙ ap (λ r. piece typ v ++ r) e ∙ sym (append_assoc (piece typ v) front back),
    )

Written-join :
    {xs ys : List Attribute} {front back : Bytes}
    → Written xs front
    → Written ys back
    → Written (xs ++ ys) (front ++ back)
Written-join nothing wb = wb
Written-join {back = back} (more {rest = rest} typ v o fits w eq) wb =
    more typ v o fits (Written-join w wb)
      (ap (λ m. m ++ back) eq ∙ append_assoc (piece typ v) rest back)

Written-nil : (m : Bytes) → Written [] m → m ≡ []
Written-nil m nothing = refl

Written-one :
    (a : Attribute) (m : Bytes)
    → Written (a ∷ []) m
    → (typ : ℕ) × (v : Bytes) × (opaque a ≡ ok (typ, v)) × (length v < 2 ^ 16) × (m ≡ piece typ v)
Written-one a m (more {rest = rest} typ v o fits w eq) = (
  typ,
  v,
  o,
  fits,
  eq ∙ ap (λ r. piece typ v ++ r) (Written-nil rest w) ∙ append-nil (piece typ v),
)

one-Written :
    (a : Attribute) (typ : ℕ) (v m : Bytes)
    → opaque a ≡ ok (typ, v)
    → length v < 2 ^ 16
    → m ≡ piece typ v
    → Written (a ∷ []) m
one-Written a typ v m o fits e = more typ v o fits nothing (e ∙ sym (append-nil (piece typ v)))

address_bytes :
    (o : Option SocketAddr) (m : Bytes)
    → OnSome HasOctets o
    → Written (address_part o) m ↔ AddressBytes o m
unfolding AddressBytes opaque
address_bytes none m h = (Written-nil m, λ e. subst (Written []) (sym e) nothing)
address_bytes (some (SocketAddr.v4 octets port)) m h = (
  λ w. let (typ, v, o, fits, e) = Written-one _ m w in ground (arith, h),
  λ e.
      one-Written _ 2 (0 ∷ 1 ∷ to_be_bytes 2 port ++ octets) m refl (omega (arith, h))
        (e ∙ rw h refl),
)
address_bytes (some (SocketAddr.v6 octets port flowinfo scope_id)) m h =
    (λ w. let (typ, v, o, fits, e) = Written-one _ m w in absurd cc, λ e. absurd e)

change_bytes : (c : ChangeRequest) (m : Bytes) → Written (change_part c) m ↔ ChangeBytes c m
unfolding ChangeBytes opaque
change_bytes ChangeRequest.none m = (Written-nil m, λ e. subst (Written []) (sym e) nothing)
change_bytes ChangeRequest.ip m = (
  λ w. let (typ, v, o, fits, e) = Written-one _ m w in ground arith,
  λ e. one-Written _ 3 (0 ∷ 0 ∷ 0 ∷ 0x20 ∷ []) m refl (omega arith) e,
)
change_bytes ChangeRequest.port m = (
  λ w. let (typ, v, o, fits, e) = Written-one _ m w in ground arith,
  λ e. one-Written _ 3 (0 ∷ 0 ∷ 0 ∷ 0x40 ∷ []) m refl (omega arith) e,
)
change_bytes ChangeRequest.ip_and_port m = (
  λ w. let (typ, v, o, fits, e) = Written-one _ m w in ground arith,
  λ e. one-Written _ 3 (0 ∷ 0 ∷ 0 ∷ 0x60 ∷ []) m refl (omega arith) e,
)

-- The zeros that the encoder adds.
abbrev zeros : Bytes → ℕ
zeros u = (4 - length u % 4) % 4

padded_size : (u : Bytes) (k : ℕ) → length (u ++ replicate k 0) ≡ length u + k
padded_size u k = omega (arith, length-append u (replicate k 0), length-replicate {A = ℕ} k 0)

padding_unique : (n k : ℕ) → k < 4 → (n + k) % 4 ≡ 0 → k ≡ (4 - n % 4) % 4
padding_unique n k small whole = omega arith

name_bytes : (o : Option Bytes) (m : Bytes) → Written (name_part o) m ↔ NameBytes o m
unfolding NameBytes opaque pad_username
name_bytes none m = (Written-nil m, λ e. subst (Written []) (sym e) nothing)
name_bytes (some u) m = (
  λ w.
      let (typ, v, o, fits, e) = Written-one (Attribute.username u) m w in
      let typed : typ ≡ 6 = sym (ap (λ p. p.0) (ok-injective o)) in
      let padded : v ≡ u ++ replicate (zeros u) 0 = sym (ap (λ p. p.1) (ok-injective o)) in
      (
        zeros u,
        omega arith,
        omega arith,
        omega (arith, fits, ap length padded, padded_size u (zeros u)),
        rw (sym (padded_size u (zeros u))) (e ∙ ap (λ t. piece t v) typed ∙ ap (piece 6) padded),
      ),
  λ (k, small, whole, fits, e).
      let value : Bytes = u ++ replicate k 0 in
      let named : opaque (Attribute.username u) ≡ ok (6, value) =
        ap (λ n. ok (6, u ++ replicate n 0)) (sym (padding_unique (length u) k small whole)) in
      one-Written (Attribute.username u) 6 value m named (omega (arith, fits, padded_size u k))
        (e ∙ ap (λ n. 0 ∷ 6 ∷ to_be_bytes 2 n ++ value) (sym (padded_size u k))),
)

request_bytes :
    (id : ℕ) (r : BindRequest) (bytes : Bytes)
    → OnSome HasOctets r.response_address
    → IsMessage id r bytes ↔ IsEncoding id r bytes
request_bytes id r bytes h = (
  λ w.
      let (a, rest, wa, wr, e) =
        split-Written (address_part r.response_address) _ w.body w.written in
      let (c, n, wc, wn, e') = split-Written (change_part r.change_request) _ rest wr in
      let body : w.body ≡ a ++ (c ++ n) = e ∙ ap (λ x. a ++ x) e' in
      record {
        address = a;
        change = c;
        name = n;
        has_address = (address_bytes r.response_address a h).0 wa;
        has_change = (change_bytes r.change_request c).0 wc;
        has_name = (name_bytes r.username n).0 wn;
        fits = subst (λ b. length b < 2 ^ 16) body w.fits;
        layout = w.layout ∙ ap (λ b. header binding_request (length b) id ++ b) body;
      },
  λ q. record {
    body = q.address ++ (q.change ++ q.name);
    written = Written-join ((address_bytes r.response_address q.address h).1 q.has_address) (
        Written-join ((change_bytes r.change_request q.change).1 q.has_change)
          ((name_bytes r.username q.name).1 q.has_name));
    fits = q.fits;
    layout = q.layout;
  },
)

-- For a request whose response address, if it is an IPv4 one, has four octets, encoding succeeds exactly
-- when the buffer then ends in its message, byte for byte: type 1, the length of the body, the cookie and
-- four zero bytes, the transaction, and as the body the response address, the change request with its
-- flags, and the user name padded with zeros to a multiple of four, those that the request has, in this
-- order. A request with an IPv6 response address or a body of 2 ^ 16 bytes or more has no message.
pub encode_request_iff :
    (id : ℕ) (r : BindRequest) (buf out : Bytes)
    → OnSome HasOctets r.response_address
    → (encode (id, Request.bind r) buf ≡ (ok tt, out))
      ↔ ((bytes : Bytes) × IsEncoding id r bytes × (out ≡ buf ++ bytes))
encode_request_iff id r buf out h = (
  λ e.
      let (bytes, w, eq) = (encode_iff id r buf out).0 e in
      (bytes, (request_bytes id r bytes h).0 w, eq),
  λ (bytes, q, eq). (encode_iff id r buf out).1 (bytes, (request_bytes id r bytes h).1 q, eq),
)
