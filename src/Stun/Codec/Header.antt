-- ===== src/Stun/Codec/Header.antt =====
-- The fixed header of twenty bytes.
use p2p_tunnler.Prelude.{
  ℕ, suc, ◌+◌, ◌^◌, ◌≤◌, ◌<◌, ◌≡◌, refl, subst, ◌∙◌, ◌++◌, length, drop, ok, >>=-eq-ok,
  ok-injective,
}
use p2p_tunnler.Net.{Bytes, IsBytes}
use p2p_tunnler.Wire.{
  to_be_bytes, Cursor, remaining, read_uint, read_uint-ok, read_uint-inv, remaining-advance,
  length-to_be_bytes, from_be_bytes-to_be_bytes,
}
use p2p_tunnler.Stun.Codec.Decode.{read_header}

-- The bytes of a header with any four integers.
abbrev pub header_of : ℕ → ℕ → ℕ → ℕ → Bytes
header_of typ len id1 id2 =
    to_be_bytes 2 typ ++ (to_be_bytes 2 len ++ (to_be_bytes 8 id1 ++ to_be_bytes 8 id2))

read_be :
    (w : ℕ) (c : Cursor) (n : ℕ) (rest : Bytes)
    → n < 256 ^ suc w
    → remaining c ≡ to_be_bytes (suc w) n ++ rest
    → (read_uint (suc w) c ≡ ok (n, record c { position = c.position + suc w }))
      × (drop (c.position + suc w) c.get_ref ≡ rest)
read_be w c n rest small e = (
  read_uint-ok w c (to_be_bytes (suc w) n) rest (length-to_be_bytes (suc w) n) e
      ∙ rw (from_be_bytes-to_be_bytes (suc w) n small),
  remaining-advance (suc w) c (to_be_bytes (suc w) n) rest (length-to_be_bytes (suc w) n) e,
)

-- A header reads as its integers.
pub read_header-header_of :
    (typ len id1 id2 : ℕ) (body : Bytes)
    → typ < 2 ^ 16
    → len < 2 ^ 16
    → id1 < 2 ^ 64
    → id2 < 2 ^ 64
    → read_header (header_of typ len id1 id2 ++ body) ≡ ok (typ, len, id1, id2)
unfolding read_header
read_header-header_of typ len id1 id2 body h1 h2 h3 h4 =
    let msg = header_of typ len id1 id2 ++ body in
    let (r1, e1) =
      read_be 1 (record { get_ref = msg; position = 0 }) typ
        (to_be_bytes 2 len ++ (to_be_bytes 8 id1 ++ (to_be_bytes 8 id2 ++ body))) h1 refl in
    let (r2, e2) =
      read_be 1 (record { get_ref = msg; position = 2 }) len
        (to_be_bytes 8 id1 ++ (to_be_bytes 8 id2 ++ body)) h2 e1 in
    let (r3, e3) =
      read_be 7 (record { get_ref = msg; position = 4 }) id1 (to_be_bytes 8 id2 ++ body) h3 e2 in
    let (r4, e4) = read_be 7 (record { get_ref = msg; position = 12 }) id2 body h4 e3 in
    rw (r1, r2, r3, r4) refl

abbrev pub HeaderOf : Bytes → ℕ × ℕ × ℕ × ℕ → Type 0
HeaderOf msg (typ, len, id1, id2) =
    (msg ≡ header_of typ len id1 id2 ++ drop 20 msg)
    × (typ < 2 ^ 16)
    × (len < 2 ^ 16)
    × (id1 < 2 ^ 64)
    × (id2 < 2 ^ 64)
    × (20 ≤ length msg)

module _ (msg : Bytes) (typ len id1 id2 : ℕ) where
  chain :
      (c1 c2 c3 c4 : Cursor)
      → IsBytes msg
      → read_uint 2 (record { get_ref = msg; position = 0 }) ≡ ok (typ, c1)
      → read_uint 2 c1 ≡ ok (len, c2)
      → read_uint 8 c2 ≡ ok (id1, c3)
      → read_uint 8 c3 ≡ ok (id2, c4)
      → HeaderOf msg (typ, len, id1, id2)
  chain c1 c2 c3 c4 h r1 r2 r3 r4 =
      let (m1, b1, t1, l1) = read_uint-inv 2 (record { get_ref = msg; position = 0 }) c1 typ h r1 in
      let (m2, b2, t2, l2) =
        read_uint-inv 2 (record { get_ref = msg; position = 2 }) c2 len h
          (subst (λ x. read_uint 2 x ≡ ok (len, c2)) m1 r2) in
      let (m3, b3, t3, l3) =
        read_uint-inv 8 (record { get_ref = msg; position = 4 }) c3 id1 h
          (subst (λ x. read_uint 8 x ≡ ok (id1, c3)) m2 r3) in
      let (m4, b4, t4, l4) =
        read_uint-inv 8 (record { get_ref = msg; position = 12 }) c4 id2 h
          (subst (λ x. read_uint 8 x ≡ ok (id2, c4)) m3 r4) in
      (b1 ∙ rw (b2, b3, b4) refl, t1, t2, t3, t4, l4)

-- A header that reads stands at the front of the message.
pub read_header-inv :
    (msg : Bytes) (h : ℕ × ℕ × ℕ × ℕ) → IsBytes msg → read_header msg ≡ ok h → HeaderOf msg h
unfolding read_header
read_header-inv msg h bytes e =
    let (r1, e1, k1) = >>=-eq-ok (read_uint 2 (record { get_ref = msg; position = 0 })) _ e in
    let (r2, e2, k2) = >>=-eq-ok (read_uint 2 r1.1) _ k1 in
    let (r3, e3, k3) = >>=-eq-ok (read_uint 8 r2.1) _ k2 in
    let (r4, e4, k4) = >>=-eq-ok (read_uint 8 r3.1) _ k3 in
    subst (HeaderOf msg) (ok-injective k4)
      (chain msg r1.0 r2.0 r3.0 r4.0 r1.1 r2.1 r3.1 r4.1 bytes e1 e2 e3 e4)
