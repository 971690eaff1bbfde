-- ===== src/Stun/Codec/Layout.antt =====
-- What `StunCodec::encode` writes.
use p2p_tunnler.Prelude.{
  ℕ, ◌^◌, ◌<◌, ◌≡◌, refl, ap, Option, none, some, [], ◌∷◌, ◌++◌, arith, length, lt→ltb, List,
  append_assoc, append-nil, ok, ◌>>=◌, >>=-eq-ok, >>=-ok, >>=_assoc, fun_ext, sym, ◌∙◌,
  ok-injective,
}
use p2p_tunnler.Net.{Bytes, SocketAddr}
use p2p_tunnler.Wire.{IoResult, to_be_bytes}
use p2p_tunnler.Stun.Codec.Types.{ChangeRequest, BindRequest, Attribute}
use p2p_tunnler.Stun.Codec.Encode.{
  opaque, encode_attribute, u16_try_from, encode_response_address, encode_change, encode_username,
  encode_bind,
}

-- The bytes of an attribute without padding behind the value.
abbrev pub piece : ℕ → Bytes → Bytes
piece typ value = to_be_bytes 2 typ ++ (to_be_bytes 2 (length value) ++ value)

abbrev pub address_part : Option SocketAddr → List Attribute
address_part none = []
address_part (some s) = Attribute.response_address s ∷ []

abbrev pub change_part : ChangeRequest → List Attribute
change_part ChangeRequest.none = []
change_part c = Attribute.change_request c ∷ []

abbrev pub name_part : Option Bytes → List Attribute
name_part none = []
name_part (some u) = Attribute.username u ∷ []

-- The attributes of a request, in the order of the message.
abbrev pub request_attributes : BindRequest → List Attribute
request_attributes r =
    address_part r.response_address ++ (change_part r.change_request ++ name_part r.username)

-- Attributes one after the other, each behind its type and its length.
pub data Written : List Attribute → Bytes → Type 0 where
  nothing : Written [] []
  more :
      {a : Attribute} {attributes : List Attribute} {rest bytes : Bytes} (typ : ℕ) (value : Bytes)
      → opaque a ≡ ok (typ, value)
      → length value < 2 ^ 16
      → Written attributes rest
      → bytes ≡ piece typ value ++ rest
      → Written (a ∷ attributes) bytes

pub encode_all : List Attribute → Bytes → IoResult Bytes
encode_all [] buf = ok buf
encode_all (a ∷ attributes) buf = do buf ← encode_attribute a buf; encode_all attributes buf

encode_one : (a : Attribute) (buf : Bytes) → encode_all (a ∷ []) buf ≡ encode_attribute a buf
unfolding encode_all
encode_one a buf = >>=-ok (encode_attribute a buf)

encode_all-append :
    (xs ys : List Attribute) (buf : Bytes)
    → encode_all (xs ++ ys) buf ≡ (encode_all xs buf >>= encode_all ys)
unfolding encode_all
encode_all-append [] ys buf = refl
encode_all-append (a ∷ xs) ys buf =
    ap (λ k. encode_attribute a buf >>= k) (fun_ext (encode_all-append xs ys))
    ∙ sym (>>=_assoc (encode_attribute a buf) (encode_all xs) (encode_all ys))

address_part-eq :
    (o : Option SocketAddr) (buf : Bytes)
    → encode_response_address o buf ≡ encode_all (address_part o) buf
unfolding encode_all encode_response_address
address_part-eq none buf = refl
address_part-eq (some s) buf = sym (encode_one (Attribute.response_address s) buf)

change_part-eq :
    (c : ChangeRequest) (buf : Bytes) → encode_change c buf ≡ encode_all (change_part c) buf
unfolding encode_all encode_change
change_part-eq ChangeRequest.none buf = refl
change_part-eq ChangeRequest.ip buf =
    sym (encode_one (Attribute.change_request ChangeRequest.ip) buf)
change_part-eq ChangeRequest.port buf =
    sym (encode_one (Attribute.change_request ChangeRequest.port) buf)
change_part-eq ChangeRequest.ip_and_port buf =
    sym (encode_one (Attribute.change_request ChangeRequest.ip_and_port) buf)

name_part-eq :
    (o : Option Bytes) (buf : Bytes) → encode_username o buf ≡ encode_all (name_part o) buf
unfolding encode_all encode_username
name_part-eq none buf = refl
name_part-eq (some u) buf = sym (encode_one (Attribute.username u) buf)

-- The body is the attributes in this order.
pub encode_bind-eq-encode_all :
    (r : BindRequest) → encode_bind r ≡ encode_all (request_attributes r) []
unfolding encode_bind
encode_bind-eq-encode_all r =
    rw
      (
        encode_all-append (address_part r.response_address)
            (change_part r.change_request ++ name_part r.username) [],
        fun_ext (encode_all-append (change_part r.change_request) (name_part r.username)),
        address_part-eq r.response_address [],
        fun_ext (change_part-eq r.change_request),
        fun_ext (name_part-eq r.username),
      )
      refl

encode_attribute-inv :
    (a : Attribute) (buf buf' : Bytes)
    → encode_attribute a buf ≡ ok buf'
    → (typ : ℕ) × (v : Bytes) × (opaque a ≡ ok (typ, v))
      × (length v < 2 ^ 16)
      × (buf' ≡ buf ++ piece typ v)
unfolding encode_attribute
encode_attribute-inv a buf buf' e =
    let (r, o, k) = >>=-eq-ok (opaque a) _ e in
    let (n, t, w) = >>=-eq-ok (u16_try_from (length r.1)) _ k in
    let sized : (n ≡ length r.1) × (length r.1 < 2 ^ 16) = ground arith in
    (
      r.0,
      r.1,
      o,
      sized.1,
      sym (ok-injective w)
          ∙ ap (λ k. buf ++ (to_be_bytes 2 r.0 ++ (to_be_bytes 2 k ++ r.1))) sized.0,
    )

encode_attribute-piece :
    (a : Attribute) (typ : ℕ) (v buf : Bytes)
    → opaque a ≡ ok (typ, v)
    → length v < 2 ^ 16
    → encode_attribute a buf ≡ ok (buf ++ piece typ v)
unfolding encode_attribute
encode_attribute-piece a typ v buf o h = rw (o, lt→ltb (length v) (2 ^ 16) h) refl

-- What the encoding of a list of attributes adds to the buffer.
pub encode_all-Written :
    (attributes : List Attribute) (buf buf' : Bytes)
    → encode_all attributes buf ≡ ok buf'
    → (m : Bytes) × Written attributes m × (buf' ≡ buf ++ m)
unfolding encode_all
encode_all-Written [] buf buf' e = ([], nothing, sym (ok-injective e) ∙ sym (append-nil buf))
encode_all-Written (a ∷ attributes) buf buf' e =
    let (mid, first, rest) = >>=-eq-ok (encode_attribute a buf) _ e in
    let (typ, v, o, h, at) = encode_attribute-inv a buf mid first in
    let (m, w, eq) = encode_all-Written attributes mid buf' rest in
    (
      piece typ v ++ m,
      more typ v o h w refl,
      eq ∙ ap (λ k. k ++ m) at ∙ append_assoc buf (piece typ v) m,
    )

pub Written-encode_all :
    {attributes : List Attribute} {m : Bytes} (buf : Bytes)
    → Written attributes m
    → encode_all attributes buf ≡ ok (buf ++ m)
unfolding encode_all
Written-encode_all buf nothing = ap ok (sym (append-nil buf))
Written-encode_all buf (more {a = a} {rest = rest} typ v o h w eq) =
    rw (encode_attribute-piece a typ v buf o h) (Written-encode_all (buf ++ piece typ v) w)
    ∙ ap ok (append_assoc buf (piece typ v) rest ∙ ap (◌++◌ buf) (sym eq))
