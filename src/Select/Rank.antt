-- ===== src/Select/Rank.antt =====
-- How many objects have their turn before another.
use mathlib.Core.Bool.{true, false}
use sonic_swss_common.Prelude.{
  ℕ, ◌+◌, ◌≤◌, ◌<◌, List, [], ◌∷◌, some, ◌≡◌, ap, arith, if◌then◌else◌, nat_eq, lookup, length,
}
use sonic_swss_common.Select.{Base, before}
use sonic_swss_common.Select.Ordered.{before_irrefl}

-- How many registered objects the comparison puts before `s`.
pub rank : (ℕ → Base) → ℕ → List (ℕ × ℕ) → ℕ
rank bases s [] = 0
rank bases s ((fd, a) ∷ os) = (if before (bases a) (bases s) then 1 else 0) + rank bases s os

module _ (bases bases' : ℕ → Base) (s : ℕ)
    (later : (x : ℕ)
      → before (bases' x) (bases' s) ≡ true
      → before (bases x) (bases s) ≡ true) where
  rank-le : (os : List (ℕ × ℕ)) → rank bases' s os ≤ rank bases s os
  unfolding rank
  rank-le [] = omega arith
  rank-le ((fd, a) ∷ os) = ground (arith, rank-le os, later a)

  pub rank-lt :
      (fd a : ℕ) (os : List (ℕ × ℕ))
      → lookup fd os ≡ some a
      → before (bases a) (bases s) ≡ true
      → before (bases' a) (bases' s) ≡ false
      → rank bases' s os < rank bases s os
  unfolding rank lookup
  rank-lt fd a [] found was now = cc
  rank-lt fd a ((j, b) ∷ os) found was now = ground (arith, rank-lt fd a os, rank-le os, later b)

rank-le-length : (bases : ℕ → Base) (s : ℕ) (os : List (ℕ × ℕ)) → rank bases s os ≤ length os
unfolding rank
rank-le-length bases s [] = omega arith
rank-le-length bases s ((fd, a) ∷ os) = ground (arith, rank-le-length bases s os)

pub rank-lt-length :
    (bases : ℕ → Base) (s fd : ℕ) (os : List (ℕ × ℕ))
    → lookup fd os ≡ some s
    → rank bases s os < length os
unfolding rank lookup
rank-lt-length bases s fd [] found = cc
rank-lt-length bases s fd ((j, b) ∷ os) found = ground (
  arith,
  rank-lt-length bases s fd os,
  rank-le-length bases s os,
  before_irrefl (bases s),
  ap (λ (x : ℕ). before (bases x) (bases s)),
)
