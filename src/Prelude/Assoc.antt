-- ===== src/Prelude/Assoc.antt =====
-- `std::map` and `std::unordered_map` as association lists: `find`, `operator[]` and `erase`.
use mathlib.Core.Path.{◌≡◌, refl}
use mathlib.Core.Bool.{Bool, false, ◌||◌}
use mathlib.Core.Option.{Option, none, some}
use mathlib.Core.List.{List, [], ◌∷◌}
use native.Mathlib.Omega.{arith}
use sonic_swss_common.Prelude.Tests.{Equality, eq_iff, ◌==◌, if◌then◌else◌}

module _ {ℓ κ} {K : Type ℓ} {V : Type κ} ⦃e : Equality K⦄ where
  unfoldable pub lookup : K → List (K × V) → Option V
  lookup key [] = none
  lookup key ((k, value) ∷ map) = if k == key then some value else lookup key map

  unfoldable pub insert : K → V → List (K × V) → List (K × V)
  insert key new [] = (key, new) ∷ []
  insert key new ((k, value) ∷ map) =
      if k == key then (key, new) ∷ map else (k, value) ∷ insert key new map

  unfoldable pub erase : K → List (K × V) → List (K × V)
  erase k [] = []
  erase k ((j, w) ∷ m) = let rest = erase k m in if j == k then rest else (j, w) ∷ rest

  pub lookup-insert :
      (key other : K) (new : V) (map : List (K × V))
      → lookup other (insert key new map) ≡ (if key == other then some new else lookup other map)
  unfolding insert lookup
  lookup-insert key other new [] = refl
  lookup-insert key other new ((k, value) ∷ map) =
      ground
        (arith, lookup-insert key other new map, eq_iff k other, eq_iff k key, eq_iff key other)

  pub lookup-erase :
      (k j : K) (m : List (K × V)) → lookup j (erase k m) ≡ (if k == j then none else lookup j m)
  unfolding lookup erase
  lookup-erase k j [] = ground arith
  lookup-erase k j ((i, w) ∷ m) =
      ground (arith, eq_iff k j, eq_iff i k, eq_iff i j, lookup-erase k j m)

module _ {ℓ} {T : Type ℓ} ⦃e : Equality T⦄ where
  unfoldable pub contains : List T → T → Bool
  contains (y ∷ ys) x = y == x || contains ys x
  contains [] x = false

module _ {ℓ κ} {K : Type ℓ} {V : Type κ} ⦃e : Equality K⦄ where
  -- No key is there twice.
  abbrev pub Distinct : List (K × V) → Type κ
  Distinct [] = Unit {κ}
  Distinct ((k, v) ∷ m) = (lookup k m ≡ none) × Distinct m

  pub erase-Distinct : (k : K) (m : List (K × V)) → Distinct m → Distinct (erase k m)
  unfolding erase
  erase-Distinct k [] d = tt
  erase-Distinct k ((j, w) ∷ m) (fresh, d) =
      ground (arith, erase-Distinct k m d, lookup-erase k j m)

  pub insert-Distinct : (k : K) (v : V) (m : List (K × V)) → Distinct m → Distinct (insert k v m)
  unfolding insert lookup
  insert-Distinct k v [] d = (refl, tt)
  insert-Distinct k v ((j, w) ∷ m) (fresh, d) =
      ground (arith, insert-Distinct k v m d, lookup-insert k j v m, eq_iff j k, eq_iff k j)
