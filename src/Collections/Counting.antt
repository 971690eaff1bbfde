-- ===== src/Collections/Counting.antt =====
-- A map whose keys all lie in a set is no larger than the set.
use p2p_tunnler.Prelude.{
  Bool-cases, inl, inr, ◌≤◌, ◌<◌, ◌≡◌, true, not, List, [], ◌∷◌, arith, length, Eq,
}
use p2p_tunnler.Collections.Sets.{
  all_in, set_eq, contains, IsNodup, retain, length-retain-le, contains-retain,
}
use p2p_tunnler.Collections.Maps.{contains_key, IsUnique}

module _ {ℓ} {K : Type ℓ} ⦃e : Eq K⦄ where
  abbrev without : K → List K → List K
  without k xs = retain (λ x. not (e.beq k x)) xs

  length-without-lt :
      (k : K) (xs : List K) → contains xs k ≡ true → length (without k xs) < length xs
  length-without-lt k [] h = cc
  length-without-lt k (x ∷ xs) h = ground (
    arith,
    length-without-lt k xs,
    length-retain-le (λ x. not (e.beq k x)) xs,
    e.beq_iff x k,
    e.beq_iff k x,
  )

module _ {ℓ} {K : Type ℓ} {V : Type ℓ} ⦃e : Eq K⦄ where
  pub length-le-of_keys :
      (m : List (K × V)) (xs : List K)
      → IsUnique m
      → ((k : K) → contains_key m k ≡ true → contains xs k ≡ true)
      → length m ≤ length xs
  length-le-of_keys [] xs u inside = omega arith
  length-le-of_keys ((k, v) ∷ m) xs u inside =
      let here : contains xs k ≡ true = inside k (ground (arith, e.beq_iff k k)) in
      let shorter = length-without-lt k xs here in
      let rest : length m ≤ length (without k xs) = length-le-of_keys m (without k xs) u.1 (λ j h.
        ground (arith, inside j, contains-retain (λ x. not (e.beq k x)) xs j, e.beq_iff k j)) in
      omega arith

module _ {ℓ} {K : Type ℓ} ⦃e : Eq K⦄ where
  pub length-le-of_contains :
      (xs ys : List K)
      → IsNodup xs
      → ((k : K) → contains xs k ≡ true → contains ys k ≡ true)
      → length xs ≤ length ys
  length-le-of_contains [] ys u inside = omega arith
  length-le-of_contains (k ∷ xs) ys u inside =
      let here : contains ys k ≡ true = inside k (ground (arith, e.beq_iff k k)) in
      let shorter = length-without-lt k ys here in
      let rest : length xs ≤ length (without k ys) =
        length-le-of_contains xs (without k ys) u.1 (λ j h.
          ground (arith, inside j, contains-retain (λ x. not (e.beq k x)) ys j, e.beq_iff k j)) in
      omega arith

module _ {ℓ} {K : Type ℓ} ⦃e : Eq K⦄ where
  all_in-contains :
      (xs ys : List K) (k : K) → all_in xs ys ≡ true → contains xs k ≡ true → contains ys k ≡ true
  all_in-contains [] ys k h hk = absurd cc
  all_in-contains (x ∷ xs) ys k h hk = ground (arith, all_in-contains xs ys k, e.beq_iff x k)

  -- Sets that compare as equal have the same elements.
  pub set_eq-contains :
      (xs ys : List K) (k : K)
      → IsNodup xs
      → set_eq xs ys ≡ true
      → contains ys k ≡ true
      → contains xs k ≡ true
  set_eq-contains xs ys k hx h hk = elim (Bool-cases (contains xs k)) [
    | inl inside ↦ inside
    | inr outside ↦
        let same_length : length xs ≡ length ys = ground arith in
        let all : all_in xs ys ≡ true = ground arith in
        let fewer : length xs ≤ length (without k ys) =
          length-le-of_contains xs (without k ys) hx (λ j hj. ground (
            arith,
            all_in-contains xs ys j all,
            contains-retain (λ x. not (e.beq k x)) ys j,
            e.beq_iff k j,
            outside,
          )) in
        let shorter = length-without-lt k ys hk in absurd (omega arith)
  ]
