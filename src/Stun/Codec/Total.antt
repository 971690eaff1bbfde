-- ===== src/Stun/Codec/Total.antt =====
-- `decode_const` ends on every datagram; and which datagrams it passes over.
use p2p_tunnler.Prelude.{
  ℕ, ◌^◌, ◌<◌, ◌≡◌, ◌≢◌, ◌↔◌, refl, ap, ◌∙◌, Option, none, some, ◌++◌, arith, drop, ok, err,
  Option-cases, inl, inr,
}
use p2p_tunnler.Net.{Bytes, IsBytes}
use p2p_tunnler.Wire.{to_be_bytes, IoResult, IsBytes-drop}
use p2p_tunnler.Stun.Codec.Types.{BindResponse, Response}
use p2p_tunnler.Stun.Codec.Decode.{
  read_header, check_header, read_body, read_binding_response, decode_const, map_bind, after_header,
}
use p2p_tunnler.Stun.Codec.Header.{header_of, read_header-header_of, read_header-inv}
use p2p_tunnler.Stun.Codec.Response.{at_start, read_binding_response-total}

map_bind-ne-ok-none : (r : Option (IoResult BindResponse)) → map_bind r ≢ some (ok none)
map_bind-ne-ok-none none e = cc
map_bind-ne-ok-none (some (err x)) e = cc
map_bind-ne-ok-none (some (ok f)) e = cc

map_bind-none : (r : Option (IoResult BindResponse)) → map_bind r ≡ none → r ≡ none
map_bind-none none e = refl
map_bind-none (some (err x)) e = cc
map_bind-none (some (ok f)) e = cc

-- The integers of the header and the rest of a datagram that is not for transaction `id`.
pub record Foreign (id : ℕ) (msg : Bytes) : Type 0 where
  pub typ : ℕ
  pub len : ℕ
  pub id1 : ℕ
  pub id2 : ℕ
  pub rest : Bytes
  pub fits : (typ < 2 ^ 16) × (len < 2 ^ 16) × (id1 < 2 ^ 64) × (id2 < 2 ^ 64)
  pub message : msg ≡ header_of typ len id1 id2 ++ rest
  pub other : id2 ≢ id

check_header-total :
    (id : ℕ) (msg : Bytes) (typ len id1 id2 : ℕ)
    → IsBytes msg
    → check_header id msg (typ, len, id1, id2) ≢ none
unfolding check_header read_body
check_header-total id msg typ len id1 id2 h e = ground (
  arith,
  map_bind-none
      (read_binding_response (at_start (drop 20 msg)) (to_be_bytes 8 id1 ++ to_be_bytes 8 id2)),
  read_binding_response-total (to_be_bytes 8 id1 ++ to_be_bytes 8 id2) (drop 20 msg)
      (IsBytes-drop 20 msg h),
)

after_header-total :
    (id : ℕ) (msg : Bytes) (r : IoResult (ℕ × ℕ × ℕ × ℕ))
    → IsBytes msg
    → after_header id msg r ≢ none
after_header-total id msg (err x) h = λ e. cc
after_header-total id msg (ok (typ, len, id1, id2)) h = check_header-total id msg typ len id1 id2 h

-- `decode_const` ends on every datagram, with a response, with nothing or with an error.
pub decode_const-total :
    (id : ℕ) (msg : Bytes)
    → IsBytes msg
    → (r : IoResult (Option Response)) × (decode_const id msg ≡ some r)
unfolding decode_const
decode_const-total id msg h = elim (Option-cases (decode_const id msg)) [
  | inl e ↦ absurd (after_header-total id msg (read_header msg) h e)
  | inr found ↦ found
]

check_header-skips :
    (id : ℕ) (msg : Bytes) (typ len id1 id2 : ℕ)
    → (check_header id msg (typ, len, id1, id2) ≡ some (ok none)) ↔ (id2 ≢ id)
unfolding check_header read_body
check_header-skips id msg typ len id1 id2 = (
  λ e same. ground (
    arith,
    map_bind-ne-ok-none
        (read_binding_response (at_start (drop 20 msg)) (to_be_bytes 8 id1 ++ to_be_bytes 8 id2)),
  ),
  λ other. ground arith,
)

after_header-skips :
    (id : ℕ) (msg : Bytes) (r : IoResult (ℕ × ℕ × ℕ × ℕ))
    → IsBytes msg
    → read_header msg ≡ r
    → after_header id msg r ≡ some (ok none)
    → Foreign id msg
after_header-skips id msg (err x) h bad e = absurd (cc)
after_header-skips id msg (ok (typ, len, id1, id2)) h good e =
    let (front, ht, hl, h1, h2, long) = read_header-inv msg (typ, len, id1, id2) h good in
    record {
      typ = typ;
      len = len;
      id1 = id1;
      id2 = id2;
      rest = drop 20 msg;
      fits = (ht, hl, h1, h2);
      message = front;
      other = (check_header-skips id msg typ len id1 id2).0 e;
    }

-- `decode_const` passes over a datagram of bytes, as not for this transaction, exactly when it has
-- the twenty bytes of a header and another transaction in the last eight of them.
pub decode_const-skips :
    (id : ℕ) (msg : Bytes) → IsBytes msg → (decode_const id msg ≡ some (ok none)) ↔ Foreign id msg
unfolding decode_const
decode_const-skips id msg h = (
  after_header-skips id msg (read_header msg) h refl,
  λ f.
      ap (after_header id msg) (
        ap read_header f.message
        ∙ read_header-header_of f.typ f.len f.id1 f.id2 f.rest f.fits.0 f.fits.1 f.fits.2 f.fits.3)
      ∙ (check_header-skips id msg f.typ f.len f.id1 f.id2).1 f.other,
)
