-- ===== src/Collections/Maps.antt =====
-- `std::collections::HashMap` as an association list without repeated keys. Rust leaves the order of
-- iteration open; the theorems speak of the values at keys and of the size.
use p2p_tunnler.Prelude.{
  suc, ◌≡◌, refl, Bool, true, false, ◌&&◌, ◌||◌, Option, none, some, List, [], ◌∷◌, arith,
  if◌then◌else◌, length, Eq,
}
use p2p_tunnler.Collections.Sets.{retain}

module _ {ℓ} {K : Type ℓ} {V : Type ℓ} ⦃e : Eq K⦄ where
  abbrev pub get : List (K × V) → K → Option V
  get [] k = none
  get ((j, v) ∷ m) k = if e.beq j k then some v else get m k

  abbrev pub contains_key : List (K × V) → K → Bool
  contains_key [] k = false
  contains_key ((j, v) ∷ m) k = e.beq j k || contains_key m k

  -- `HashMap::insert` without its result, which is `get` before.
  abbrev pub insert : K → V → List (K × V) → List (K × V)
  insert k v [] = (k, v) ∷ []
  insert k v ((j, w) ∷ m) = if e.beq j k then (j, v) ∷ m else (j, w) ∷ insert k v m

  -- `entry(k).or_insert(v)`.
  abbrev pub or_insert : K → V → List (K × V) → List (K × V)
  or_insert k v m = if contains_key m k then m else (k, v) ∷ m

  -- No key twice.
  abbrev pub IsUnique : List (K × V) → Type 0
  IsUnique [] = Unit
  IsUnique ((k, v) ∷ m) = (contains_key m k ≡ false) × IsUnique m

  pub get-insert :
      (k j : K) (v : V) (m : List (K × V))
      → get (insert k v m) j ≡ (if e.beq k j then some v else get m j)
  get-insert k j v [] = refl
  get-insert k j v ((i, w) ∷ m) =
      ground (arith, get-insert k j v m, e.beq_iff i k, e.beq_iff k j, e.beq_iff i j)

  pub contains_key-get : (m : List (K × V)) (k : K) → contains_key m k ≡ false → get m k ≡ none
  contains_key-get [] k h = refl
  contains_key-get ((j, v) ∷ m) k h = ground (arith, contains_key-get m k)

  pub contains_key-insert :
      (k j : K) (v : V) (m : List (K × V))
      → contains_key (insert k v m) j ≡ (e.beq k j || contains_key m j)
  contains_key-insert k j v [] = ground arith
  contains_key-insert k j v ((i, w) ∷ m) =
      ground (arith, contains_key-insert k j v m, e.beq_iff i k, e.beq_iff k j, e.beq_iff i j)

  pub IsUnique-insert : (k : K) (v : V) (m : List (K × V)) → IsUnique m → IsUnique (insert k v m)
  IsUnique-insert k v [] h = (refl, tt)
  IsUnique-insert k v ((i, w) ∷ m) h =
      ground (
        arith,
        IsUnique-insert k v m h.1,
        contains_key-insert k i v m,
        e.beq_iff i k,
        e.beq_iff k i,
      )

  -- A new key makes a map longer, an old one does not.
  pub length-insert :
      (k : K) (v : V) (m : List (K × V))
      → length (insert k v m) ≡ (if contains_key m k then length m else suc (length m))
  length-insert k v [] = refl
  length-insert k v ((i, w) ∷ m) = ground (arith, length-insert k v m, e.beq_iff i k)

  pub get-some-contains_key :
      (m : List (K × V)) (k : K) (v : V) → get m k ≡ some v → contains_key m k ≡ true
  get-some-contains_key [] k v h = cc
  get-some-contains_key ((i, w) ∷ m) k v h = ground (arith, get-some-contains_key m k v)

  pub contains_key-retain :
      (p : K × V → Bool) (m : List (K × V)) (k : K)
      → contains_key m k ≡ false
      → contains_key (retain p m) k ≡ false
  contains_key-retain p [] k h = refl
  contains_key-retain p ((i, w) ∷ m) k h = ground (arith, contains_key-retain p m k)

  pub IsUnique-retain : (p : K × V → Bool) (m : List (K × V)) → IsUnique m → IsUnique (retain p m)
  IsUnique-retain p [] h = tt
  IsUnique-retain p ((i, w) ∷ m) h =
      ground (arith, IsUnique-retain p m h.1, contains_key-retain p m i h.0)

  -- A value that passes the test stays where it was.
  pub get-retain-some :
      (p : K × V → Bool) (m : List (K × V)) (k : K) (v : V)
      → get m k ≡ some v
      → p (k, v) ≡ true
      → get (retain p m) k ≡ some v
  get-retain-some p [] k v h hp = cc
  get-retain-some p ((i, w) ∷ m) k v h hp = ground (arith, get-retain-some p m k v, e.beq_iff i k)

  -- Of unique keys, what is found after the test was there and passes it.
  pub get-retain :
      (p : K × V → Bool) (m : List (K × V)) (k : K) (v : V)
      → IsUnique m
      → get (retain p m) k ≡ some v
      → (get m k ≡ some v) × (p (k, v) ≡ true)
  get-retain p [] k v u h = cc
  get-retain p ((i, w) ∷ m) k v u h = ground (
    arith,
    get-retain p m k v u.1,
    e.beq_iff i k,
    contains_key-retain p m k,
    contains_key-get (retain p m) k,
  )

  -- A test of the keys alone.
  pub get-retain_keys :
      (p : K → Bool) (m : List (K × V)) (k : K)
      → get (retain (λ (j, v). p j) m) k ≡ (if p k then get m k else none)
  get-retain_keys p [] k = ground arith
  get-retain_keys p ((i, w) ∷ m) k = ground (arith, get-retain_keys p m k, e.beq_iff i k)

  pub contains_key-retain_keys :
      (p : K → Bool) (m : List (K × V)) (k : K)
      → contains_key (retain (λ (j, v). p j) m) k ≡ (p k && contains_key m k)
  contains_key-retain_keys p [] k = ground arith
  contains_key-retain_keys p ((i, w) ∷ m) k =
      ground (arith, contains_key-retain_keys p m k, e.beq_iff i k)

  pub get_none-contains_key : (m : List (K × V)) (k : K) → get m k ≡ none → contains_key m k ≡ false
  get_none-contains_key [] k h = refl
  get_none-contains_key ((i, w) ∷ m) k h = ground (arith, get_none-contains_key m k)
