-- ===== src/Stun/Codec/Tlv.antt =====
-- `Attribute::read` over the three parts of an attribute: type, length, padded value.
use p2p_tunnler.Prelude.{
  ℕ, ◌+◌, ◌*◌, ◌/◌, ◌^◌, ◌≤◌, ◌<◌, ◌≡◌, refl, ap, ◌∙◌, ◌++◌, arith, le→leb, lt→ltb, length,
  length-append, append_assoc, ok, ◌>>=◌,
}
use p2p_tunnler.Net.{Bytes}
use p2p_tunnler.Wire.{
  to_be_bytes, Cursor, remaining, read_uint, length-to_be_bytes, from_be_bytes-to_be_bytes,
  read_uint-ok, slice-remaining, remaining-advance, length-remaining,
}
use p2p_tunnler.Stun.Codec.Decode.{checked_add, round_up, read_value, read_attribute}

-- The bytes of an attribute.
abbrev pub tlv : ℕ → Bytes → Bytes → Bytes
tlv typ value pad = to_be_bytes 2 typ ++ (to_be_bytes 2 (length value) ++ (value ++ pad))

read_u16-to_be_bytes :
    (c : Cursor) (n : ℕ) (rest : Bytes)
    → n < 2 ^ 16
    → remaining c ≡ to_be_bytes 2 n ++ rest
    → read_uint 2 c ≡ ok (n, record c { position = c.position + 2 })
read_u16-to_be_bytes c n rest h e =
    read_uint-ok 1 c (to_be_bytes 2 n) rest (length-to_be_bytes 2 n) e
    ∙ rw (from_be_bytes-to_be_bytes 2 n h)

advance_u16 :
    (c : Cursor) (n : ℕ) (rest : Bytes)
    → remaining c ≡ to_be_bytes 2 n ++ rest
    → remaining (record c { position = c.position + 2 }) ≡ rest
advance_u16 c n rest e = remaining-advance 2 c (to_be_bytes 2 n) rest (length-to_be_bytes 2 n) e

checked_add-ok : (a b : ℕ) → a + b < 2 ^ 64 → checked_add a b ≡ ok (a + b)
checked_add-ok a b h = rw (lt→ltb (a + b) (2 ^ 64) h)

round_up-ok : (n : ℕ) → n < 2 ^ 16 → round_up n ≡ ok ((n + 3) / 4 * 4)
round_up-ok n h = rw (checked_add-ok n 3 (omega arith))

pub length-tlv :
    (typ : ℕ) (value pad : Bytes) → length (tlv typ value pad) ≡ 4 + (length value + length pad)
length-tlv typ value pad = omega (arith, length-append value pad)

pub read_attribute-tlv :
    (c : Cursor) (typ : ℕ) (value pad rest key : Bytes)
    → typ < 2 ^ 16
    → length value < 2 ^ 16
    → length value + length pad ≡ (length value + 3) / 4 * 4
    → length c.get_ref < 2 ^ 63
    → remaining c ≡ tlv typ value pad ++ rest
    → read_attribute c key ≡ (do
      a ← read_value typ value key
      ok (a, record c { position = c.position + length (tlv typ value pad) }))
unfolding read_attribute
read_attribute-tlv c typ value pad rest key ht hl hp room e =
    rw
      (
        read_u16-to_be_bytes c typ _ ht e1,
        read_u16-to_be_bytes c2 (length value) _ hl e2,
        round_up-ok (length value) hl,
        ← hp,
        checked_add-ok (c.position + 2 + 2) (length value) (omega (arith, fits)),
        checked_add-ok (c.position + 2 + 2) (length value + length pad) (omega (arith, fits)),
        le→leb (c.position + 2 + 2 + (length value + length pad)) (length c.get_ref) fits,
        slice-remaining c4 (length value) value (pad ++ rest) refl e4,
        length-tlv typ value pad,
      )
      (ap (λ (p : ℕ). read_value typ value key >>= λ a. ok (a, record c { position = p }))
        (omega arith))
  where
    e1 :
        remaining c
        ≡ to_be_bytes 2 typ ++ (to_be_bytes 2 (length value) ++ (value ++ (pad ++ rest)))
    e1 = e ∙ simp append_assoc

    c2 : Cursor
    c2 = record c { position = c.position + 2 }

    e2 : remaining c2 ≡ to_be_bytes 2 (length value) ++ (value ++ (pad ++ rest))
    e2 = advance_u16 c typ _ e1

    c4 : Cursor
    c4 = record c { position = c.position + 2 + 2 }

    e4 : remaining c4 ≡ value ++ (pad ++ rest)
    e4 = advance_u16 c2 (length value) _ e2

    fits : c.position + 2 + 2 + (length value + length pad) ≤ length c.get_ref
    fits = omega (arith, length-remaining c (tlv typ value pad) rest e, length-tlv typ value pad)
