-- ===== src/Base/Assoc.antt =====
-- Association lists over keys with a tested equality.
use Prim.Native.Nat.{ℕ, zero, suc, ◌+◌, ◌≤◌}
use mathlib.Core.Path.{◌≡◌, refl}
use mathlib.Core.Logic.{◌≢◌}
use mathlib.Core.Bool.{true}
use mathlib.Core.Option.{Option, none, some}
use mathlib.Core.List.{List, [], ◌∷◌}
use native.Mathlib.Omega.{arith}
use fwknox.Base.Tests.{if◌then◌else◌, is_some}
use fwknox.Base.Lists.{length, take}
use fwknox.Base.Equality.{PartialEq, ◌==◌}

module _ {K V : Type 0} ⦃e : PartialEq K⦄ where
  unfoldable pub lookup : K → List (K × V) → Option V
  lookup k [] = none
  lookup k ((j, v) ∷ m) = if j == k then some v else lookup k m

  unfoldable pub erase : K → List (K × V) → List (K × V)
  erase k [] = []
  erase k ((j, v) ∷ m) = if j == k then m else (j, v) ∷ erase k m

  -- No key stands twice.
  abbrev pub Distinct : List (K × V) → Type 0
  Distinct [] = Unit
  Distinct ((k, v) ∷ m) = (lookup k m ≡ none) × Distinct m

  pub lookup-erase :
      (k j : K) (m : List (K × V))
      → Distinct m
      → lookup j (erase k m) ≡ (if k == j then none else lookup j m)
  unfolding lookup erase
  lookup-erase k j [] d = ground arith
  lookup-erase k j ((i, v) ∷ m) d =
      ground (arith, lookup-erase k j m d.1, e.decides i k, e.decides i j, e.decides k j)

  pub Distinct-erase : (k : K) (m : List (K × V)) → Distinct m → Distinct (erase k m)
  unfolding lookup erase
  Distinct-erase k [] d = tt
  Distinct-erase k ((i, v) ∷ m) d =
      ground (arith, Distinct-erase k m d.1, lookup-erase k i m d.1, e.decides i k, e.decides k i)

  pub erase-absent : (k : K) (m : List (K × V)) → lookup k m ≡ none → erase k m ≡ m
  unfolding lookup erase
  erase-absent k [] h = refl
  erase-absent k ((i, v) ∷ m) h = ground (arith, erase-absent k m)

  pub length-erase-le : (k : K) (m : List (K × V)) → length (erase k m) ≤ length m
  unfolding erase
  length-erase-le k [] = omega arith
  length-erase-le k ((i, v) ∷ m) = ground (arith, length-erase-le k m)

  pub length-erase :
      (k : K) (m : List (K × V)) {v : V} → lookup k m ≡ some v → length (erase k m) + 1 ≡ length m
  unfolding lookup erase
  length-erase k [] h = absurd (cc)
  length-erase k ((i, v) ∷ m) {v = w} h = ground (arith, length-erase k m {v = w})

  -- What is left of the front is still free of a key that the whole is free of.
  pub lookup-take :
      (k : K) (n : ℕ) (m : List (K × V)) → lookup k m ≡ none → lookup k (take n m) ≡ none
  unfolding lookup
  lookup-take k zero m h = refl
  lookup-take k (suc n) [] h = refl
  lookup-take k (suc n) ((i, v) ∷ m) h = ground (arith, lookup-take k n m)

  pub Distinct-take : (n : ℕ) (m : List (K × V)) → Distinct m → Distinct (take n m)
  Distinct-take zero m d = tt
  Distinct-take (suc n) [] d = tt
  Distinct-take (suc n) ((k, v) ∷ m) d = (lookup-take k n m d.0, Distinct-take n m d.1)

  pub lookup-erase_self : (k : K) (m : List (K × V)) → Distinct m → lookup k (erase k m) ≡ none
  lookup-erase_self k m d = ground (arith, lookup-erase k k m d, e.decides k k)

  -- A key among the first entries is among more of them, and stays there when another is erased.
  pub lookup-take-suc :
      (k : K) (n : ℕ) (m : List (K × V))
      → is_some (lookup k (take n m)) ≡ true
      → is_some (lookup k (take (suc n) m)) ≡ true
  unfolding lookup
  lookup-take-suc k zero m h = absurd (cc)
  lookup-take-suc k (suc n) [] h = absurd (cc)
  lookup-take-suc k (suc n) ((i, v) ∷ m) h = ground (arith, lookup-take-suc k n m)

  pub lookup-take-erase :
      (k j : K) (n : ℕ) (m : List (K × V))
      → k ≢ j
      → is_some (lookup k (take n m)) ≡ true
      → is_some (lookup k (take n (erase j m))) ≡ true
  unfolding lookup erase
  lookup-take-erase k j zero m ne h = absurd (cc)
  lookup-take-erase k j (suc n) [] ne h = absurd (cc)
  lookup-take-erase k j (suc n) ((i, v) ∷ m) ne h =
      ground
        (arith, lookup-take-erase k j n m ne, lookup-take-suc k n m, e.decides i j, e.decides i k)

  pub lookup-take-take :
      (k : K) (n p : ℕ) (m : List (K × V))
      → n ≤ p
      → is_some (lookup k (take n m)) ≡ true
      → is_some (lookup k (take n (take p m))) ≡ true
  unfolding lookup
  lookup-take-take k zero p m le h = absurd (cc)
  lookup-take-take k (suc n) zero m le h = absurd (omega arith)
  lookup-take-take k (suc n) (suc p) [] le h = absurd (cc)
  lookup-take-take k (suc n) (suc p) ((i, v) ∷ m) le h = ground (arith, lookup-take-take k n p m)

  pub is_some-lookup_of_take :
      (k : K) (n : ℕ) (m : List (K × V))
      → is_some (lookup k (take n m)) ≡ true
      → is_some (lookup k m) ≡ true
  unfolding lookup
  is_some-lookup_of_take k zero m h = absurd (cc)
  is_some-lookup_of_take k (suc n) [] h = absurd (cc)
  is_some-lookup_of_take k (suc n) ((i, v) ∷ m) h = ground (arith, is_some-lookup_of_take k n m)
