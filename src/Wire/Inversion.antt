-- ===== src/Wire/Inversion.antt =====
-- What a successful read tells of the bytes.
use native.Mathlib.Nat.{pow-suc}
use p2p_tunnler.Prelude.{
  ℕ, zero, suc, ◌+◌, ◌*◌, ◌/◌, ◌%◌, ◌^◌, ◌≤◌, ◌<◌, ◌≡◌, refl, sym, ap, subst, ◌∙◌, [], ◌∷◌, ◌++◌,
  arith, length, take, drop, slice, length-drop, length-take, take-append-drop, drop-drop, ok,
}
use p2p_tunnler.Net.{Bytes, IsBytes}
use p2p_tunnler.Wire.Defs.{to_be_bytes, from_be_bytes, Cursor, remaining, read_uint}
use p2p_tunnler.Wire.Laws.{be_from-append, add-sub_left}

pub IsBytes-append : (xs ys : Bytes) → IsBytes (xs ++ ys) → IsBytes xs × IsBytes ys
IsBytes-append [] ys h = (tt, h)
IsBytes-append (x ∷ xs) ys h = let (l, r) = IsBytes-append xs ys h.1 in ((h.0, l), r)

pub IsBytes-append_of : (xs ys : Bytes) → IsBytes xs → IsBytes ys → IsBytes (xs ++ ys)
IsBytes-append_of [] ys h k = k
IsBytes-append_of (x ∷ xs) ys h k = (h.0, IsBytes-append_of xs ys h.1 k)

pub IsBytes-drop : (n : ℕ) (xs : Bytes) → IsBytes xs → IsBytes (drop n xs)
IsBytes-drop zero xs h = h
IsBytes-drop (suc n) [] h = tt
IsBytes-drop (suc n) (x ∷ xs) h = IsBytes-drop n xs h.1

pub IsBytes-take : (n : ℕ) (xs : Bytes) → IsBytes xs → IsBytes (take n xs)
IsBytes-take zero xs h = tt
IsBytes-take (suc n) [] h = tt
IsBytes-take (suc n) (x ∷ xs) h = (h.0, IsBytes-take n xs h.1)

-- The last byte of a string that is not empty.
last_byte :
    (w : ℕ) (xs : Bytes)
    → length xs ≡ suc w
    → (ys : Bytes) × (b : ℕ) × (xs ≡ ys ++ b ∷ []) × (length ys ≡ w)
last_byte w [] h = absurd (omega arith)
last_byte zero (x ∷ []) h = ([], x, refl, refl)
last_byte zero (x ∷ y ∷ xs) h = absurd (omega arith)
last_byte (suc w) (x ∷ xs) h =
    let (ys, b, e, n) = last_byte w xs (omega arith) in (x ∷ ys, b, ap (◌∷◌ x) e, ap suc n)

abbrev Encodes : ℕ → Bytes → Type 0
Encodes w xs = (to_be_bytes w (from_be_bytes xs) ≡ xs) × (from_be_bytes xs < 256 ^ w)

Encodes-last :
    (w : ℕ) (ys : Bytes) (b : ℕ) → b < 256 → Encodes w ys → Encodes (suc w) (ys ++ b ∷ [])
Encodes-last w ys b small (e, fits) =
    rw (be_from-append 0 ys b) (rw (high, low, e) refl, omega (arith, pow-suc 256 w))
  where
    high : (from_be_bytes ys * 256 + b) / 256 ≡ from_be_bytes ys
    high = omega arith

    low : (from_be_bytes ys * 256 + b) % 256 ≡ b
    low = omega arith

-- Bytes are the encoding of the integer that they stand for, which fits.
pub to_be_bytes-from_be_bytes :
    (w : ℕ) (xs : Bytes)
    → IsBytes xs
    → length xs ≡ w
    → (to_be_bytes w (from_be_bytes xs) ≡ xs) × (from_be_bytes xs < 256 ^ w)
to_be_bytes-from_be_bytes zero [] h n = (refl, omega arith)
to_be_bytes-from_be_bytes zero (x ∷ xs) h n = absurd (omega arith)
to_be_bytes-from_be_bytes (suc w) xs h n =
    let (ys, b, e, m) = last_byte w xs n in
    let (hy, hb) = IsBytes-append ys (b ∷ []) (subst IsBytes e h) in
    subst (Encodes (suc w)) (sym e) (Encodes-last w ys b hb.0 (to_be_bytes-from_be_bytes w ys hy m))

read_uint_fits :
    (w : ℕ) (c c' : Cursor) (n : ℕ)
    → read_uint w c ≡ ok (n, c')
    → (n ≡ from_be_bytes (slice c.position (c.position + w) c.get_ref))
      × (c' ≡ record c { position = c.position + w })
      × (c.position + w ≤ length c.get_ref)
unfolding read_uint
read_uint_fits w c c' n e = ground arith

abbrev chunk : ℕ → Cursor → Bytes
chunk w c = take w (remaining c)

-- A read takes the encoding of its result off the bytes ahead.
pub read_uint-inv :
    (w : ℕ) (c c' : Cursor) (n : ℕ)
    → IsBytes c.get_ref
    → read_uint w c ≡ ok (n, c')
    → (c' ≡ record c { position = c.position + w })
      × (remaining c ≡ to_be_bytes w n ++ drop (c.position + w) c.get_ref)
      × (n < 256 ^ w)
      × (c.position + w ≤ length c.get_ref)
read_uint-inv w c c' n h e =
    let (val, moved, fits) = read_uint_fits w c c' n e in
    let val' : n ≡ from_be_bytes (chunk w c) =
      val ∙ ap (λ (k : ℕ). from_be_bytes (take k (remaining c))) (add-sub_left c.position w) in
    let (enc, small) =
      to_be_bytes-from_be_bytes w (chunk w c) (IsBytes-take w _ (IsBytes-drop c.position _ h))
        (omega (arith, length-take w (remaining c), length-drop c.position c.get_ref)) in
    (
      moved,
      sym (take-append-drop w (remaining c)) ∙ cc (enc, val', drop-drop c.position w c.get_ref),
      omega (arith, val'),
      fits,
    )
