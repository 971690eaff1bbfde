-- ===== src/Stun/Codec/Request.antt =====
-- `StunCodec::encode` as a whole: what it writes, when it fails, and that a failure writes nothing.
use p2p_tunnler.Prelude.{
  ℕ, ◌^◌, ◌<◌, ◌≡◌, ◌↔◌, refl, sym, ap, subst, ◌∙◌, [], ◌++◌, arith, length, lt→ltb, ok, err, ◌>>=◌,
  >>=_assoc,
}
use p2p_tunnler.Net.{Bytes}
use p2p_tunnler.Wire.{IoResult, ErrorKind}
use p2p_tunnler.Stun.Codec.Types.{BindRequest, Request, binding_request}
use p2p_tunnler.Stun.Codec.Encode.{
  u16_try_from, encode_bind, request_body, header, encode, write_message,
}
use p2p_tunnler.Stun.Codec.Layout.{
  Written, request_attributes, encode_bind-eq-encode_all, encode_all-Written, Written-encode_all,
}

-- The message of a binding request.
pub record IsMessage (id : ℕ) (r : BindRequest) (bytes : Bytes) : Type 0 where
  pub body : Bytes
  pub written : Written (request_attributes r) body
  pub fits : length body < 2 ^ 16
  pub layout : bytes ≡ header binding_request (length body) id ++ body

abbrev parts : Request → IoResult (ℕ × ℕ × Bytes)
parts req = do
  (typ, m) ← request_body req
  message_length ← u16_try_from (length m)
  ok (typ, message_length, m)

write_message-err :
    (id : ℕ) (buf : Bytes) (p : IoResult (ℕ × ℕ × Bytes)) (e : ErrorKind)
    → (write_message id buf p).0 ≡ err e
    → (write_message id buf p).1 ≡ buf
unfolding write_message
write_message-err id buf (ok (typ, len, m)) e h = cc
write_message-err id buf (err x) e h = refl

write_message-ok :
    (id : ℕ) (buf : Bytes) (p : IoResult (ℕ × ℕ × Bytes))
    → (write_message id buf p).0 ≡ ok tt
    → (x : ℕ × ℕ × Bytes) × (p ≡ ok x)
      × ((write_message id buf p).1 ≡ buf ++ (header x.0 x.1 id ++ x.2))
unfolding write_message
write_message-ok id buf (ok (typ, len, m)) h = ((typ, len, m), refl, refl)
write_message-ok id buf (err x) h = cc

-- A request that cannot be encoded leaves the buffer as it was.
pub encode-error :
    (id : ℕ) (req : Request) (buf : Bytes) (e : ErrorKind)
    → (encode (id, req) buf).0 ≡ err e
    → (encode (id, req) buf).1 ≡ buf
unfolding encode
encode-error id req buf e h = write_message-err id buf (parts req) e h

-- What `encode` makes of the body of a binding request.
abbrev sized : IoResult Bytes → IoResult (ℕ × ℕ × Bytes)
sized b = do
  m ← b
  message_length ← u16_try_from (length m)
  ok (binding_request, message_length, m)

parts-bind :
    (b : IoResult Bytes) (x : ℕ × ℕ × Bytes)
    → sized b ≡ ok x
    → (m : Bytes) × (b ≡ ok m) × (length m < 2 ^ 16) × (x ≡ (binding_request, length m, m))
parts-bind (err e) x h = cc
parts-bind (ok m) x h = (m, refl, ground arith, ground arith)

parts-sized : (r : BindRequest) → parts (Request.bind r) ≡ sized (encode_bind r)
unfolding request_body
parts-sized r = >>=_assoc (encode_bind r) _ _

encode-bind :
    (id : ℕ) (r : BindRequest) (buf : Bytes)
    → encode (id, Request.bind r) buf ≡ write_message id buf (sized (encode_bind r))
unfolding encode
encode-bind id r buf = ap (write_message id buf) (parts-sized r)

pub encode-IsMessage :
    (id : ℕ) (r : BindRequest) (buf : Bytes)
    → (encode (id, Request.bind r) buf).0 ≡ ok tt
    → (bytes : Bytes) × IsMessage id r bytes × ((encode (id, Request.bind r) buf).1 ≡ buf ++ bytes)
encode-IsMessage id r buf h =
    let whole = encode-bind id r buf in
    let (x, made, out) =
      write_message-ok id buf (sized (encode_bind r)) (sym (ap (λ p. p.0) whole) ∙ h) in
    let (m, enc, fits, eq) = parts-bind (encode_bind r) x made in
    let (body, w, same) =
      encode_all-Written (request_attributes r) [] m (sym (encode_bind-eq-encode_all r) ∙ enc) in
    (
      header binding_request (length m) id ++ m,
      record {
        body = m;
        written = subst (Written (request_attributes r)) (sym same) w;
        fits = fits;
        layout = refl;
      },
      ap (λ p. p.1) whole ∙ out ∙ ap (λ (y : ℕ × ℕ × Bytes). buf ++ (header y.0 y.1 id ++ y.2)) eq,
    )

pub IsMessage-encode :
    (id : ℕ) (r : BindRequest) (buf bytes : Bytes)
    → IsMessage id r bytes
    → encode (id, Request.bind r) buf ≡ (ok tt, buf ++ bytes)
unfolding write_message
IsMessage-encode id r buf bytes w =
    encode-bind id r buf
    ∙ rw
        (
          encode_bind-eq-encode_all r,
          Written-encode_all [] w.written,
          lt→ltb (length w.body) (2 ^ 16) w.fits,
          w.layout,
        )
        refl

-- Encoding a binding request succeeds exactly when the buffer then ends in its message: the header
-- with the transaction and the length of the body, and as the body the response address, the change
-- request and the user name, those that the request has, in this order.
pub encode_iff :
    (id : ℕ) (r : BindRequest) (buf out : Bytes)
    → (encode (id, Request.bind r) buf ≡ (ok tt, out))
      ↔ ((bytes : Bytes) × IsMessage id r bytes × (out ≡ buf ++ bytes))
encode_iff id r buf out = (
  λ e.
      let (bytes, w, eq) = encode-IsMessage id r buf (ap (λ p. p.0) e) in
      (bytes, w, sym (ap (λ p. p.1) e) ∙ eq),
  λ (bytes, w, eq). IsMessage-encode id r buf bytes w ∙ ap (λ (o : Bytes). (ok tt, o)) (sym eq),
)
