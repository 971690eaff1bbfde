-- ===== src/Text/Numbers.antt =====
-- `from_str_radix` and `parse` of the unsigned integers.
use p2p_tunnler.Prelude.{
  ℕ, ◌+◌, ◌*◌, ◌-◌, ◌≤◌, ◌<◌, ◌≡◌, ◌≢◌, ◌↔◌, ◌⊎◌, inl, inr, refl, ap, subst, ◌∙◌, ◌&&◌, Option,
  none, some, List, [], ◌∷◌, ltb, leb, ◌==◌, if◌then◌else◌, arith, Result, ok, err, ok-injective,
  ◌>>=◌, >>=-eq-ok, Bool-cases, ==_iff,
}
use native.Mathlib.Nat.{mul-le-mul_left}

pub data ParseIntError : Type 0 where
  empty invalid_digit pos_overflow : ParseIntError

-- The value of a digit, if it is less than the radix.
abbrev pub below : ℕ → ℕ → Option ℕ
below radix x = if ltb x radix then some x else none

-- `char::to_digit`.
unfoldable pub to_digit : ℕ → ℕ → Option ℕ
to_digit radix c =
    if leb b'0' c && leb c b'9'
    then below radix (c - b'0')
    else if leb b'a' c && leb c b'z'
    then below radix ((c - b'a') + 10)
    else if leb b'A' c && leb c b'Z'
    then below radix ((c - b'A') + 10)
    else none

-- The loop over the digits, with the value so far; `size` is the number of values of the type.
abbrev pub push_digit : ℕ → ℕ → ℕ → Option ℕ → Result ParseIntError ℕ
push_digit radix size acc none = err invalid_digit
push_digit radix size acc (some x) =
    if ltb (acc * radix + x) size then ok (acc * radix + x) else err pos_overflow

unfoldable pub read_digits : ℕ → ℕ → ℕ → List ℕ → Result ParseIntError ℕ
read_digits radix size acc [] = ok acc
read_digits radix size acc (c ∷ cs) = do
  acc' ← push_digit radix size acc (to_digit radix c)
  read_digits radix size acc' cs

-- A sign may stand before the digits, but not alone.
unfoldable pub from_str_radix : ℕ → ℕ → List ℕ → Result ParseIntError ℕ
from_str_radix radix size [] = err empty
from_str_radix radix size (c ∷ []) =
    if c == b'+'
    then err invalid_digit
    else if c == b'-'
    then err invalid_digit
    else read_digits radix size 0 (c ∷ [])
from_str_radix radix size (c ∷ d ∷ cs) =
    let signed = read_digits radix size 0 (d ∷ cs) in
    let plain = read_digits radix size 0 (c ∷ d ∷ cs) in if c == b'+' then signed else plain

-- The digits of a text, highest first.
abbrev pub AreDigits : ℕ → List ℕ → List ℕ → Type 0
AreDigits radix [] [] = Unit
AreDigits radix [] (x ∷ xs) = ⊥
AreDigits radix (c ∷ cs) [] = ⊥
AreDigits radix (c ∷ cs) (x ∷ xs) = (to_digit radix c ≡ some x) × AreDigits radix cs xs

abbrev pub number : ℕ → ℕ → List ℕ → ℕ
number radix acc [] = acc
number radix acc (x ∷ xs) = number radix (acc * radix + x) xs

-- A text that denotes a number: digits, perhaps with a plus sign before them.
pub record IsNumeral (radix : ℕ) (text : List ℕ) (n : ℕ) : Type 0 where
  pub digits : List ℕ
  pub values : List ℕ
  pub shape : (text ≡ digits) ⊎ (text ≡ b'+' ∷ digits)
  pub some_digit : digits ≢ []
  pub reads : AreDigits radix digits values
  pub denotes : number radix 0 values ≡ n

number-le : (radix acc : ℕ) (xs : List ℕ) → 1 ≤ radix → acc ≤ number radix acc xs
number-le radix acc [] h = omega arith
number-le radix acc (x ∷ xs) h =
    omega (arith, number-le radix (acc * radix + x) xs h, mul-le-mul_left acc h)

module _ (radix size : ℕ) (positive : 1 ≤ radix) where
  pushed :
      (acc m : ℕ) (o : Option ℕ)
      → push_digit radix size acc o ≡ ok m
      → (x : ℕ) × (o ≡ some x) × (acc * radix + x ≡ m) × (m < size)
  pushed acc m none h = absurd cc
  pushed acc m (some x) h = (x, refl, ground arith, ground arith)

  pushes :
      (acc x : ℕ) (o : Option ℕ)
      → o ≡ some x
      → acc * radix + x < size
      → push_digit radix size acc o ≡ ok (acc * radix + x)
  pushes acc x o e h = ap (push_digit radix size acc) e ∙ ground arith

  read-digits :
      (acc n : ℕ) (cs : List ℕ)
      → read_digits radix size acc cs ≡ ok n
      → acc < size
      → (xs : List ℕ) × AreDigits radix cs xs × (number radix acc xs ≡ n) × (n < size)
  unfolding read_digits
  read-digits acc n [] h small = ([], tt, ok-injective h, ground arith)
  read-digits acc n (c ∷ cs) h small =
      let (m, first, rest) = >>=-eq-ok (push_digit radix size acc (to_digit radix c)) _ h in
      let (x, here, value, bound) = pushed acc m (to_digit radix c) first in
      let (xs, reads, denotes, small') = read-digits m n cs rest bound in
      (x ∷ xs, (here, reads), ap (λ a. number radix a xs) value ∙ denotes, small')

  digits-read :
      (acc n : ℕ) (cs xs : List ℕ)
      → AreDigits radix cs xs
      → number radix acc xs ≡ n
      → n < size
      → read_digits radix size acc cs ≡ ok n
  unfolding read_digits
  digits-read acc n [] [] reads e small = ap ok e
  digits-read acc n [] (x ∷ xs) reads e small = absurd reads
  digits-read acc n (c ∷ cs) [] reads e small = absurd reads
  digits-read acc n (c ∷ cs) (x ∷ xs) (here, reads) e small =
      let le = number-le radix (acc * radix + x) xs positive in
      let fits : acc * radix + x < size = omega arith in
      ap (λ r. r >>= λ acc'. read_digits radix size acc' cs)
        (pushes acc x (to_digit radix c) here fits)
      ∙ digits-read (acc * radix + x) n cs xs reads e small

  sign_is_no_digit : (cs xs : List ℕ) → AreDigits radix (b'+' ∷ cs) xs → ⊥
  unfolding to_digit
  sign_is_no_digit cs [] h = h
  sign_is_no_digit cs (x ∷ xs) h = absurd cc

  minus_is_no_digit : (cs xs : List ℕ) → AreDigits radix (b'-' ∷ cs) xs → ⊥
  unfolding to_digit
  minus_is_no_digit cs [] h = h
  minus_is_no_digit cs (x ∷ xs) h = absurd cc

  read_numeral :
      (text digits : List ℕ) (n : ℕ)
      → (text ≡ digits) ⊎ (text ≡ b'+' ∷ digits)
      → digits ≢ []
      → 0 < size
      → read_digits radix size 0 digits ≡ ok n
      → IsNumeral radix text n × (n < size)
  read_numeral text digits n shape some_digit small h =
      let (xs, reads, denotes, bound) = read-digits 0 n digits h small in
      (
        record {
          digits = digits;
          values = xs;
          shape = shape;
          some_digit = some_digit;
          reads = reads;
          denotes = denotes;
        },
        bound,
      )

  parsed :
      (text : List ℕ) (n : ℕ)
      → 0 < size
      → from_str_radix radix size text ≡ ok n
      → IsNumeral radix text n × (n < size)
  unfolding from_str_radix
  parsed [] n small h = absurd cc
  parsed (c ∷ []) n small h =
      read_numeral (c ∷ []) (c ∷ []) n (inl refl) (λ e. cc) small (ground arith)
  parsed (c ∷ d ∷ cs) n small h = elim (Bool-cases (c == b'+')) [
    | inr plain ↦
        read_numeral (c ∷ d ∷ cs) (c ∷ d ∷ cs) n (inl refl) (λ e. cc) small (ground (arith, plain))
    | inl signed ↦
        read_numeral (c ∷ d ∷ cs) (d ∷ cs) n (inr (ap (λ x. x ∷ d ∷ cs) ((==_iff c b'+').0 signed)))
          (λ e. cc) small (ground (arith, signed))
  ]

  plain_parses :
      (digits xs : List ℕ) (n : ℕ)
      → digits ≢ []
      → AreDigits radix digits xs
      → number radix 0 xs ≡ n
      → n < size
      → from_str_radix radix size digits ≡ ok n
  unfolding from_str_radix
  plain_parses [] xs n some_digit reads e small = absurd (some_digit refl)
  plain_parses (c ∷ []) xs n some_digit reads e small = ground (
    arith,
    digits-read 0 n (c ∷ []) xs reads e small,
    sign_is_no_digit [] xs,
    minus_is_no_digit [] xs,
  )
  plain_parses (c ∷ d ∷ cs) xs n some_digit reads e small = elim (Bool-cases (c == b'+')) [
    | inr plain ↦ ground (arith, plain, digits-read 0 n (c ∷ d ∷ cs) xs reads e small)
    | inl signed ↦ absurd (
        sign_is_no_digit (d ∷ cs) xs
          (subst (λ x. AreDigits radix (x ∷ d ∷ cs) xs) ((==_iff c b'+').0 signed) reads))
  ]

  signed_parses :
      (digits xs : List ℕ) (n : ℕ)
      → digits ≢ []
      → AreDigits radix digits xs
      → number radix 0 xs ≡ n
      → n < size
      → from_str_radix radix size (b'+' ∷ digits) ≡ ok n
  unfolding from_str_radix
  signed_parses [] xs n some_digit reads e small = absurd (some_digit refl)
  signed_parses (d ∷ cs) xs n some_digit reads e small = digits-read 0 n (d ∷ cs) xs reads e small

  -- A text is read as a number exactly if it denotes it and the type has room for it.
  pub from_str_radix_iff :
      (text : List ℕ) (n : ℕ)
      → 0 < size
      → (from_str_radix radix size text ≡ ok n) ↔ (IsNumeral radix text n × (n < size))
  from_str_radix_iff text n small = (
    parsed text n small,
    λ (v, bound). elim v.shape [
      | inl plain ↦
          ap (from_str_radix radix size) plain
          ∙ plain_parses v.digits v.values n v.some_digit v.reads v.denotes bound
      | inr signed ↦
          ap (from_str_radix radix size) signed
          ∙ signed_parses v.digits v.values n v.some_digit v.reads v.denotes bound
    ],
  )
