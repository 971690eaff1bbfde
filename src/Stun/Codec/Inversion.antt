-- ===== src/Stun/Codec/Inversion.antt =====
-- What a successful `Attribute::read` tells of the bytes ahead of the cursor.
use p2p_tunnler.Prelude.{
  ℕ, ◌+◌, ◌-◌, ◌*◌, ◌/◌, ◌^◌, ◌≤◌, ◌<◌, ◌≡◌, sym, ap, subst, three_parts, ◌∙◌, ◌++◌, arith, length,
  length-take, length-drop, take, drop, slice, drop-drop, ok, >>=-eq-ok,
}
use p2p_tunnler.Net.{Bytes, IsBytes}
use p2p_tunnler.Wire.{to_be_bytes, Cursor, remaining, read_uint, read_uint-inv, add-sub_left}
use p2p_tunnler.Stun.Codec.Types.{Attribute}
use p2p_tunnler.Stun.Codec.Decode.{read_value, read_padded, read_attribute}
use p2p_tunnler.Stun.Codec.Tlv.{tlv}

-- A read attribute: where its value stands and what it was read from.
pub record ReadAt (c c' : Cursor) (key : Bytes) (a : Attribute) : Type 0 where
  pub typ : ℕ
  pub value : Bytes
  pub pad : Bytes
  pub typ_fits : typ < 2 ^ 16
  pub value_fits : length value < 2 ^ 16
  pub padded : length value + length pad ≡ (length value + 3) / 4 * 4
  pub reads : read_value typ value key ≡ ok a
  pub bytes : remaining c ≡ tlv typ value pad ++ remaining c'
  pub same : c'.get_ref ≡ c.get_ref
  pub moved : c.position + 4 ≤ c'.position
  pub within : c'.position ≤ length c.get_ref

-- The checks behind the type and the length.
read_padded_checks :
    (typ len : ℕ) (c c' : Cursor) (key : Bytes) (a : Attribute)
    → read_padded typ len c key ≡ ok (a, c')
    → (c.position + (len + 3) / 4 * 4 ≤ length c.get_ref)
      × (read_value typ (slice c.position (c.position + len) c.get_ref) key ≡ ok a)
      × (c' ≡ record c { position = c.position + (len + 3) / 4 * 4 })
unfolding read_padded
read_padded_checks typ len c c' key a e = ground arith

module _ (c c' : Cursor) (typ len : ℕ) (key : Bytes) (a : Attribute) where
  abbrev body : ℕ
  body = c.position + 2 + 2

  abbrev value_at : Bytes
  value_at = take len (drop body c.get_ref)

  abbrev pad_len : ℕ
  pad_len = (len + 3) / 4 * 4 - len

  abbrev pad_at : Bytes
  pad_at = take pad_len (drop len (drop body c.get_ref))

  length-value_at : body + (len + 3) / 4 * 4 ≤ length c.get_ref → length value_at ≡ len
  length-value_at fits =
      omega (arith, length-take len (drop body c.get_ref), length-drop body c.get_ref)

  length-pad_at : body + (len + 3) / 4 * 4 ≤ length c.get_ref → length pad_at ≡ pad_len
  length-pad_at fits = omega (
    arith,
    length-take pad_len (drop len (drop body c.get_ref)),
    length-drop len (drop body c.get_ref),
    length-drop body c.get_ref,
  )

  -- The value, its padding and the rest make up what follows the length.
  value_pad_rest :
      drop body c.get_ref ≡ (value_at ++ pad_at) ++ drop (body + (len + 3) / 4 * 4) c.get_ref
  value_pad_rest =
      three_parts len pad_len (drop body c.get_ref)
      ∙ ap (◌++◌ (value_at ++ pad_at)) (
          sym (drop-drop body (len + pad_len) c.get_ref)
          ∙ ap (λ (k : ℕ). drop k c.get_ref) (omega arith))

  padded-ReadAt :
      remaining c ≡ to_be_bytes 2 typ ++ drop (c.position + 2) c.get_ref
      → drop (c.position + 2) c.get_ref ≡ to_be_bytes 2 len ++ drop body c.get_ref
      → typ < 2 ^ 16
      → len < 2 ^ 16
      → read_padded typ len (record c { position = body }) key ≡ ok (a, c')
      → ReadAt c c' key a
  padded-ReadAt e1 e2 ht hl e =
      let (fits, val, moved) =
        read_padded_checks typ len (record c { position = body }) c' key a e in
      record {
        typ = typ;
        value = value_at;
        pad = pad_at;
        typ_fits = ht;
        value_fits = omega (arith, length-value_at fits);
        padded = omega (arith, length-value_at fits, length-pad_at fits);
        reads =
            subst (λ k. read_value typ (take k (drop body c.get_ref)) key ≡ ok a)
              (add-sub_left body len) val;
        bytes =
            e1
            ∙ rw (e2, moved, length-value_at fits)
                (ap (λ t. to_be_bytes 2 typ ++ (to_be_bytes 2 len ++ t)) value_pad_rest);
        same = ap (λ (x : Cursor). x.get_ref) moved;
        moved = omega (arith, ap (λ (x : Cursor). x.position) moved);
        within = omega (arith, ap (λ (x : Cursor). x.position) moved);
      }

  second_read :
      (c1 c2 : Cursor)
      → IsBytes c.get_ref
      → read_uint 2 c ≡ ok (typ, c1)
      → read_uint 2 c1 ≡ ok (len, c2)
      → read_padded typ len c2 key ≡ ok (a, c')
      → ReadAt c c' key a
  second_read c1 c2 h r1 r2 r3 =
      let (m1, b1, t1, _) = read_uint-inv 2 c c1 typ h r1 in
      let r2' : read_uint 2 (record c { position = c.position + 2 }) ≡ ok (len, c2) =
        subst (λ x. read_uint 2 x ≡ ok (len, c2)) m1 r2 in
      let (m2, b2, t2, _) = read_uint-inv 2 (record c { position = c.position + 2 }) c2 len h r2' in
      padded-ReadAt b1 b2 t1 t2 (subst (λ x. read_padded typ len x key ≡ ok (a, c')) m2 r3)

-- A successful `Attribute::read` read a type, a length and a padded value.
pub read_attribute-ReadAt :
    (c c' : Cursor) (key : Bytes) (a : Attribute)
    → IsBytes c.get_ref
    → read_attribute c key ≡ ok (a, c')
    → ReadAt c c' key a
unfolding read_attribute
read_attribute-ReadAt c c' key a h e =
    let (r1, e1, k1) = >>=-eq-ok (read_uint 2 c) _ e in
    let (r2, e2, k2) = >>=-eq-ok (read_uint 2 r1.1) _ k1 in
    second_read c c' r1.0 r2.0 key a r1.1 r2.1 h e1 e2 k2
