-- ===== src/Wire/Xor.antt =====
-- Exclusive or of integers and of byte strings, the masking of XOR-MAPPED-ADDRESS.
use Prim.Native.Nat.{bit_xor, bit_xor-bitwise, digits, differ}
use native.Mathlib.Nat.{pow-suc}
use p2p_tunnler.Prelude.{ℕ, zero, suc, ◌+◌, ◌*◌, ◌/◌, ◌%◌, ◌^◌, ◌≤◌, ◌<◌, ◌≡◌, refl, ◌∙◌, arith}

-- The count of digits to go does not matter once it covers the first number.
enough_digits :
    (n m a b : ℕ) → a ≤ n → a ≤ m → digits (λ y. y) differ n a b ≡ digits (λ y. y) differ m a b
enough_digits zero zero zero b p q = refl
enough_digits zero (suc m) zero b p q = refl
enough_digits (suc n) zero zero b p q = refl
enough_digits (suc n) (suc m) zero b p q = refl
enough_digits zero m (suc a) b p q = absurd (omega arith)
enough_digits (suc n) zero (suc a) b p q = absurd (omega arith)
enough_digits (suc n) (suc m) (suc a) b p q =
    rw (enough_digits n m (suc a / 2) (b / 2) (omega arith) (omega arith))

differ-zero : (d : ℕ) → d < 2 → differ 0 d ≡ d
differ-zero zero h = refl
differ-zero (suc zero) h = refl
differ-zero (suc (suc d)) h = absurd (omega arith)

-- One equation for the lowest digit.
bit_xor_step : (a b : ℕ) → bit_xor a b ≡ bit_xor (a / 2) (b / 2) * 2 + differ (a % 2) (b % 2)
bit_xor_step zero b = simp bit_xor-bitwise (omega (arith, differ-zero (b % 2) (omega arith)))
bit_xor_step (suc a) b =
    simp bit_xor-bitwise
      (omega (arith, enough_digits a (suc a / 2) (suc a / 2) (b / 2) (omega arith) (omega arith)))

differ_cancel : (d e : ℕ) → d < 2 → e < 2 → (differ d e < 2) × (differ (differ d e) e ≡ d)
differ_cancel zero zero p q = omega arith
differ_cancel zero (suc zero) p q = omega arith
differ_cancel (suc zero) zero p q = omega arith
differ_cancel (suc zero) (suc zero) p q = omega arith
differ_cancel (suc (suc d)) e p q = absurd (omega arith)
differ_cancel d (suc (suc e)) p q = absurd (omega arith)

-- The digits of an exclusive or.
xor_digits :
    (a b : ℕ)
    → (bit_xor a b / 2 ≡ bit_xor (a / 2) (b / 2)) × (bit_xor a b % 2 ≡ differ (a % 2) (b % 2))
xor_digits a b =
    omega (arith, bit_xor_step a b, differ_cancel (a % 2) (b % 2) (omega arith) (omega arith))

xor_cancel_below : (n a b : ℕ) → a ≤ n → b ≤ n → bit_xor (bit_xor a b) b ≡ a
xor_cancel_below zero zero zero p q = refl
xor_cancel_below zero (suc a) b p q = absurd (omega arith)
xor_cancel_below zero a (suc b) p q = absurd (omega arith)
xor_cancel_below (suc n) a b p q =
    bit_xor_step (bit_xor a b) b
    ∙ rw
        (
          (xor_digits a b).0,
          (xor_digits a b).1,
          xor_cancel_below n (a / 2) (b / 2) (omega arith) (omega arith),
        )
        (omega (arith, differ_cancel (a % 2) (b % 2) (omega arith) (omega arith)))

-- Masking twice with one key gives the value back.
pub xor_cancel : (a b : ℕ) → bit_xor (bit_xor a b) b ≡ a
xor_cancel a b = xor_cancel_below (a + b) a b (omega arith) (omega arith)

-- Masking keeps the width.
pub bit_xor-lt : (w a b : ℕ) → a < 2 ^ w → b < 2 ^ w → bit_xor a b < 2 ^ w
bit_xor-lt zero zero zero p q = omega arith
bit_xor-lt zero (suc a) b p q = absurd (omega arith)
bit_xor-lt zero zero (suc b) p q = absurd (omega arith)
bit_xor-lt (suc w) a b p q = omega (
  arith,
  pow-suc 2 w,
  xor_digits a b,
  differ_cancel (a % 2) (b % 2) (omega arith) (omega arith),
  bit_xor-lt w (a / 2) (b / 2) (omega (arith, pow-suc 2 w)) (omega (arith, pow-suc 2 w)),
)
