-- ===== src/Prelude/Results.antt =====
-- Fallible code: Rust's `Result`, with `?` as a bind.
use mathlib.Core.Path.{◌≡◌, refl}
use mathlib.Core.Bool.{Bool, true, false}
use mathlib.Core.Option.{Option, none, some}
use mathlib.Core.Logic.{◌⊎◌, inl, inr}

pub data Result {ℓ} (E : Type 0) (A : Type ℓ) : Type ℓ where
  ok : A → Result E A
  err : E → Result E A

module _ {E : Type 0} where
  infixl 5 ◌>>=◌ ◌>>◌
  abbrev pub ◌>>=◌ {ℓ κ} : {A : Type ℓ} {B : Type κ} → Result E A → (A → Result E B) → Result E B
  ok got >>= next = next got
  err e >>= next = err e

  abbrev pub ◌>>◌ {ℓ κ} : {A : Type ℓ} {B : Type κ} → Result E A → Result E B → Result E B
  first >> second = first >>= λ _. second

  -- `if !test { return Err(e) }`.
  abbrev pub ensure : Bool → E → Result E (Unit {0})
  ensure true e = ok tt
  ensure false e = err e

  -- `Option::ok_or_else`.
  abbrev pub ok_or {ℓ} : {A : Type ℓ} → Option A → E → Result E A
  ok_or none e = err e
  ok_or (some a) e = ok a

  pub Result-cases {ℓ} :
      {A : Type ℓ} (r : Result E A) → ((a : A) × (r ≡ ok a)) ⊎ ((e : E) × (r ≡ err e))
  Result-cases (ok a) = inl (a, refl)
  Result-cases (err e) = inr (e, refl)

  -- Inversion of a successful bind, for proofs where the parts stay shut.
  pub >>=-eq-ok {ℓ κ} :
      {A : Type ℓ} {B : Type κ} (first : Result E A) (next : A → Result E B) {out : B}
      → (first >>= next) ≡ ok out
      → (got : A) × (first ≡ ok got) × (next got ≡ ok out)
  >>=-eq-ok (ok got) next h = (got, refl, h)
  >>=-eq-ok (err e) next h = absurd cc

  -- And of a failing one: either step has failed.
  pub >>=-eq-err {ℓ κ} :
      {A : Type ℓ} {B : Type κ} (first : Result E A) (next : A → Result E B) {e : E}
      → (first >>= next) ≡ err e
      → (first ≡ err e) ⊎ ((got : A) × (first ≡ ok got) × (next got ≡ err e))
  >>=-eq-err (ok got) next h = inr (got, refl, h)
  >>=-eq-err (err x) next h = inl cc

  pub ok-injective {ℓ} : {A : Type ℓ} {a b : A} → ◌≡◌ {A = Result E A} (ok a) (ok b) → a ≡ b
  ok-injective e = cc

  pub >>=-ok {ℓ} : {A : Type ℓ} (m : Result E A) → (m >>= ok) ≡ m
  >>=-ok (ok a) = refl
  >>=-ok (err e) = refl

  pub >>=_assoc {ℓ κ ι} :
      {A : Type ℓ} {B : Type κ} {C : Type ι} (m : Result E A) (f : A → Result E B)
      (g : B → Result E C)
      → ((m >>= f) >>= g) ≡ (m >>= λ a. f a >>= g)
  >>=_assoc (ok a) f g = refl
  >>=_assoc (err e) f g = refl
