-- ===== src/Collections/Sets.antt =====
-- `std::collections::HashSet` as a list without repetitions. Rust leaves the order of iteration
-- open; the theorems speak of membership and size.
use p2p_tunnler.Prelude.{
  ℕ, zero, suc, ◌≤◌, ◌≡◌, refl, Bool, true, false, ◌&&◌, ◌||◌, List, [], ◌∷◌, ◌++◌, arith, ◌==◌,
  if◌then◌else◌, length, take, Eq,
}

-- `Iterator::filter` by a Boolean test, and `HashSet::retain`.
abbrev pub retain {ℓ} : {A : Type ℓ} → (A → Bool) → List A → List A
retain p [] = []
retain p (x ∷ xs) = let rest = retain p xs in if p x then x ∷ rest else rest

pub length-retain-le {ℓ} :
    {A : Type ℓ} (p : A → Bool) (xs : List A) → length (retain p xs) ≤ length xs
length-retain-le p [] = omega arith
length-retain-le p (x ∷ xs) = ground (arith, length-retain-le p xs)

module _ {ℓ} {A : Type ℓ} ⦃e : Eq A⦄ where
  abbrev pub contains : List A → A → Bool
  contains [] a = false
  contains (x ∷ xs) a = e.beq x a || contains xs a

  -- `HashSet::insert` without its result.
  abbrev pub insert : A → List A → List A
  insert a xs = if contains xs a then xs else a ∷ xs

  -- `Iterator::collect` into a set.
  abbrev pub collect : List A → List A
  collect [] = []
  collect (x ∷ xs) = insert x (collect xs)

  abbrev pub all_in : List A → List A → Bool
  all_in [] ys = true
  all_in (x ∷ xs) ys = contains ys x && all_in xs ys

  -- `PartialEq` of sets: the same size, and each element in the other set.
  abbrev pub set_eq : List A → List A → Bool
  set_eq xs ys = length xs == length ys && all_in xs ys

  -- No element twice.
  abbrev pub IsNodup : List A → Type 0
  IsNodup [] = Unit
  IsNodup (x ∷ xs) = (contains xs x ≡ false) × IsNodup xs

module _ {ℓ} {A : Type ℓ} ⦃e : Eq A⦄ where
  pub contains-insert :
      (a b : A) (xs : List A) → contains (insert a xs) b ≡ (e.beq a b || contains xs b)
  contains-insert a b xs = ground (arith, e.beq_iff a b)

  pub contains-insert_self : (a : A) (xs : List A) → contains (insert a xs) a ≡ true
  contains-insert_self a xs = ground (arith, e.beq_iff a a)

  pub IsNodup-insert : (a : A) (xs : List A) → IsNodup xs → IsNodup (insert a xs)
  IsNodup-insert a xs h = ground arith

  pub length-insert-le : (a : A) (xs : List A) → length (insert a xs) ≤ suc (length xs)
  length-insert-le a xs = ground arith

  pub contains-append :
      (xs ys : List A) (b : A) → contains (xs ++ ys) b ≡ (contains xs b || contains ys b)
  contains-append [] ys b = refl
  contains-append (x ∷ xs) ys b = ground (arith, contains-append xs ys b)

  pub contains-collect : (xs : List A) (b : A) → contains (collect xs) b ≡ contains xs b
  contains-collect [] b = refl
  contains-collect (x ∷ xs) b =
      ground (arith, contains-insert x b (collect xs), contains-collect xs b)

  pub IsNodup-collect : (xs : List A) → IsNodup (collect xs)
  IsNodup-collect [] = tt
  IsNodup-collect (x ∷ xs) = IsNodup-insert x (collect xs) (IsNodup-collect xs)

  pub length-collect-le : (xs : List A) → length (collect xs) ≤ length xs
  length-collect-le [] = omega arith
  length-collect-le (x ∷ xs) = ground (arith, length-collect-le xs)

  pub contains-retain :
      (p : A → Bool) (xs : List A) (b : A) → contains (retain p xs) b ≡ (p b && contains xs b)
  contains-retain p [] b = ground arith
  contains-retain p (x ∷ xs) b = ground (arith, contains-retain p xs b, e.beq_iff x b)

  pub IsNodup-retain : (p : A → Bool) (xs : List A) → IsNodup xs → IsNodup (retain p xs)
  IsNodup-retain p [] h = tt
  IsNodup-retain p (x ∷ xs) h = ground (arith, IsNodup-retain p xs h.1, contains-retain p xs x)

  pub contains-take :
      (n : ℕ) (xs : List A) (b : A) → contains (take n xs) b ≡ true → contains xs b ≡ true
  contains-take zero xs b h = cc
  contains-take (suc n) [] b h = cc
  contains-take (suc n) (x ∷ xs) b h = ground (arith, contains-take n xs b)

  -- Two sets that share nothing make one list without repetitions.
  pub IsNodup-append :
      (xs ys : List A)
      → IsNodup xs
      → IsNodup ys
      → ((a : A) → contains ys a ≡ true → contains xs a ≡ false)
      → IsNodup (xs ++ ys)
  IsNodup-append [] ys hx hy apart = hy
  IsNodup-append (x ∷ xs) ys hx hy apart = (
    ground (arith, contains-append xs ys x, apart x, e.beq_iff x x),
    IsNodup-append xs ys hx.1 hy (λ a h. ground (arith, apart a h)),
  )
