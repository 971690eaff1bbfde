-- ===== src/Wire/Laws.antt =====
-- Encoding and decoding of integers, and where a read leaves the cursor.
use native.Mathlib.Nat.{pow-suc}
use p2p_tunnler.Prelude.{
  ℕ, zero, suc, ◌+◌, ◌-◌, ◌*◌, ◌/◌, ◌%◌, ◌^◌, ◌<◌, ◌≡◌, refl, ap, [], ◌∷◌, ◌++◌, arith, length,
  drop, slice, le→leb, length-append, length-drop, take-append, drop-append, drop-drop, ok,
}
use p2p_tunnler.Net.{Bytes}
use p2p_tunnler.Wire.Defs.{to_be_bytes, be_from, from_be_bytes, Cursor, remaining, read_uint}

pub length-to_be_bytes : (w n : ℕ) → length (to_be_bytes w n) ≡ w
length-to_be_bytes zero n = refl
length-to_be_bytes (suc w) n =
    omega (
      arith,
      length-append (to_be_bytes w (n / 256)) (n % 256 ∷ []),
      length-to_be_bytes w (n / 256),
    )

pub be_from-append :
    (acc : ℕ) (xs : Bytes) (b : ℕ) → be_from acc (xs ++ b ∷ []) ≡ be_from acc xs * 256 + b
be_from-append acc [] b = refl
be_from-append acc (x ∷ xs) b = be_from-append (acc * 256 + x) xs b

-- An integer that fits its width comes back.
pub from_be_bytes-to_be_bytes : (w n : ℕ) → n < 256 ^ w → from_be_bytes (to_be_bytes w n) ≡ n
from_be_bytes-to_be_bytes zero n h = omega arith
from_be_bytes-to_be_bytes (suc w) n h = omega (
  arith,
  be_from-append 0 (to_be_bytes w (n / 256)) (n % 256),
  from_be_bytes-to_be_bytes w (n / 256) (omega (arith, pow-suc 256 w)),
)

-- How many bytes lie ahead of the cursor.
pub length-remaining :
    (c : Cursor) (xs rest : Bytes)
    → remaining c ≡ xs ++ rest
    → length c.get_ref - c.position ≡ length xs + length rest
length-remaining c xs rest e =
    omega (arith, length-drop c.position c.get_ref, ap length e, length-append xs rest)

pub add-sub_left : (a b : ℕ) → a + b - a ≡ b
add-sub_left a b = omega arith

pub slice-remaining :
    (c : Cursor) (w : ℕ) (xs rest : Bytes)
    → length xs ≡ w
    → remaining c ≡ xs ++ rest
    → slice c.position (c.position + w) c.get_ref ≡ xs
slice-remaining c w xs rest n e = rw (add-sub_left c.position w, e) (take-append w xs rest n)

pub read_uint-ok :
    (w : ℕ) (c : Cursor) (xs rest : Bytes)
    → length xs ≡ suc w
    → remaining c ≡ xs ++ rest
    → read_uint (suc w) c ≡ ok (from_be_bytes xs, record c { position = c.position + suc w })
unfolding read_uint
read_uint-ok w c xs rest n e = rw (
  le→leb (c.position + suc w) (length c.get_ref) (omega (arith, length-remaining c xs rest e)),
  slice-remaining c (suc w) xs rest n e,
)

-- What lies ahead after a read of `xs`.
pub remaining-advance :
    (w : ℕ) (c : Cursor) (xs rest : Bytes)
    → length xs ≡ w
    → remaining c ≡ xs ++ rest
    → drop (c.position + w) c.get_ref ≡ rest
remaining-advance w c xs rest n e =
    rw (drop-drop c.position w c.get_ref, e) (drop-append w xs rest n)
