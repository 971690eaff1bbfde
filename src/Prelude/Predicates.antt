-- ===== src/Prelude/Predicates.antt =====
-- Predicates on the elements of a list.
use mathlib.Core.Logic.{◌⊎◌, inl, inr}
use mathlib.Core.List.{List, [], ◌∷◌, ◌++◌}

module _ {ℓ} {A : Type ℓ} where
  abbrev pub All : (A → Type 0) → List A → Type 0
  All P [] = Unit
  All P (x ∷ xs) = P x × All P xs

  abbrev pub Some : (A → Type 0) → List A → Type 0
  Some P [] = ⊥
  Some P (x ∷ xs) = P x ⊎ Some P xs

  pub All-snoc :
      (P : A → Type 0) (front : List A) (last : A)
      → All P front
      → P last
      → All P (front ++ last ∷ [])
  All-snoc P [] last each at_last = (at_last, tt)
  All-snoc P (a ∷ front) last (here, each) at_last = (here, All-snoc P front last each at_last)

  pub All-mono :
      (P : A → Type 0) (Q : A → Type 0) (xs : List A) → ((x : A) → P x → Q x) → All P xs → All Q xs
  All-mono P Q [] f h = tt
  All-mono P Q (x ∷ xs) f h = (f x h.0, All-mono P Q xs f h.1)

  pub Some-mono : (P Q : A → Type 0) (xs : List A) → ((x : A) → P x → Q x) → Some P xs → Some Q xs
  Some-mono P Q [] f h = absurd h
  Some-mono P Q (x ∷ xs) f (inl h) = inl (f x h)
  Some-mono P Q (x ∷ xs) f (inr h) = inr (Some-mono P Q xs f h)
