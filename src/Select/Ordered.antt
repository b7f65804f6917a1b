-- ===== src/Select/Ordered.antt =====
-- The order of `m_ready`, and what its insertion and deletion do to a set in that order.
use mathlib.Core.Bool.{true, false}
use sonic_swss_common.Prelude.{
  ℕ, List, [], ◌∷◌, ◌≡◌, refl, arith, ◌==◌, nat_eq, eq_iff, All, contains, inl, inr, Bool-cases,
}
use sonic_swss_common.Select.{Base, before, update, insert_ready, erase_ready}

pub before_irrefl : (a : Base) → before a a ≡ false
unfolding before
before_irrefl a = ground arith

pub before_trans : (a b c : Base) → before a b ≡ true → before b c ≡ true → before a c ≡ true
unfolding before
before_trans a b c h k = ground arith

pub before_asymm : (a b : Base) → before a b ≡ true → before b a ≡ false
unfolding before
before_asymm a b h = ground arith

module _ (bases : ℕ → Base) where
  abbrev pub Behind : ℕ → List ℕ → Type 0
  Behind a = All (λ (x : ℕ). before (bases a) (bases x) ≡ true)

  abbrev pub Sorted : List ℕ → Type 0
  Sorted [] = Unit {0}
  Sorted (x ∷ xs) = Behind x xs × Sorted xs

  pub Behind-trans :
      (a b : ℕ) (xs : List ℕ) → before (bases a) (bases b) ≡ true → Behind b xs → Behind a xs
  Behind-trans a b [] h k = tt
  Behind-trans a b (x ∷ xs) h (k, ks) =
      (before_trans (bases a) (bases b) (bases x) h k, Behind-trans a b xs h ks)

  pub Behind-contains :
      (a x : ℕ) (xs : List ℕ)
      → Behind a xs
      → contains xs x ≡ true
      → before (bases a) (bases x) ≡ true
  unfolding contains
  Behind-contains a x [] h k = cc
  Behind-contains a x (y ∷ ys) (h, hs) k = ground (arith, Behind-contains a x ys hs, eq_iff y x)

  -- The first element is in front of the others, and is none of them.
  pub contains-Behind : (a : ℕ) (xs : List ℕ) → Behind a xs → contains xs a ≡ false
  contains-Behind a xs h = elim (Bool-cases (contains xs a)) [
    | inl there ↦ ground (arith, Behind-contains a a xs h there, before_irrefl (bases a))
    | inr gone ↦ gone
  ]

  insert_ready-Behind :
      (a b : ℕ) (xs : List ℕ)
      → before (bases b) (bases a) ≡ true
      → Behind b xs
      → Behind b (insert_ready bases a xs)
  unfolding insert_ready
  insert_ready-Behind a b [] h k = (h, tt)
  insert_ready-Behind a b (x ∷ xs) h (k, ks) = ground (arith, insert_ready-Behind a b xs h ks)

  pub insert_ready-Sorted : (a : ℕ) (xs : List ℕ) → Sorted xs → Sorted (insert_ready bases a xs)
  unfolding insert_ready
  insert_ready-Sorted a [] s = (tt, tt)
  insert_ready-Sorted a (x ∷ xs) (h, s) = elim (Bool-cases (before (bases a) (bases x))) [
    | inl first ↦ rw first ((first, Behind-trans a x xs first h), (h, s))
    | inr later ↦ rw later (elim (Bool-cases (before (bases x) (bases a))) [
      | inl past ↦ rw past (insert_ready-Behind a x xs past h, insert_ready-Sorted a xs s)
      | inr same ↦ rw same (h, s)
    ])
  ]

  pub insert_ready-All :
      (P : ℕ → Type 0) (a : ℕ) (xs : List ℕ) → P a → All P xs → All P (insert_ready bases a xs)
  unfolding insert_ready
  insert_ready-All P a [] p h = (p, tt)
  insert_ready-All P a (x ∷ xs) p (q, h) = elim (Bool-cases (before (bases a) (bases x))) [
    | inl first ↦ rw first (p, (q, h))
    | inr later ↦ rw later (elim (Bool-cases (before (bases x) (bases a))) [
      | inl past ↦ rw past (q, insert_ready-All P a xs p h)
      | inr same ↦ rw same (q, h)
    ])
  ]

  -- What is there stays there.
  pub contains-insert_ready :
      (a x : ℕ) (xs : List ℕ) → contains xs x ≡ true → contains (insert_ready bases a xs) x ≡ true
  unfolding insert_ready contains
  contains-insert_ready a x [] h = cc
  contains-insert_ready a x (y ∷ ys) h = ground (arith, contains-insert_ready a x ys)

  erase_ready-Behind : (a b : ℕ) (xs : List ℕ) → Behind b xs → Behind b (erase_ready bases a xs)
  unfolding erase_ready
  erase_ready-Behind a b [] h = tt
  erase_ready-Behind a b (x ∷ xs) (h, hs) = ground (arith, erase_ready-Behind a b xs hs)

  pub erase_ready-Sorted : (a : ℕ) (xs : List ℕ) → Sorted xs → Sorted (erase_ready bases a xs)
  unfolding erase_ready
  erase_ready-Sorted a [] s = tt
  erase_ready-Sorted a (x ∷ xs) (h, s) =
      ground (arith, erase_ready-Sorted a xs s, erase_ready-Behind a x xs h)

  pub erase_ready-All :
      (P : ℕ → Type 0) (a : ℕ) (xs : List ℕ) → All P xs → All P (erase_ready bases a xs)
  unfolding erase_ready
  erase_ready-All P a [] h = tt
  erase_ready-All P a (x ∷ xs) (q, h) = elim (Bool-cases (before (bases a) (bases x))) [
    | inl first ↦ rw first (q, h)
    | inr later ↦ rw later (elim (Bool-cases (before (bases x) (bases a))) [
      | inl past ↦ rw past (q, erase_ready-All P a xs h)
      | inr same ↦ rw same h
    ])
  ]

  pub contains-erase_ready :
      (a : ℕ) (xs : List ℕ) → Sorted xs → contains (erase_ready bases a xs) a ≡ false
  unfolding erase_ready contains
  contains-erase_ready a [] s = refl
  contains-erase_ready a (x ∷ xs) (h, s) = ground (
    arith,
    contains-erase_ready a xs s,
    Behind-contains x a xs h,
    Behind-contains a a xs,
    Behind-trans a x xs,
    before_irrefl (bases a),
    eq_iff x a,
  )

  -- The first element is the one that its deletion takes out.
  pub erase_ready_first : (a : ℕ) (xs : List ℕ) → erase_ready bases a (a ∷ xs) ≡ xs
  unfolding erase_ready
  erase_ready_first a xs = ground (arith, before_irrefl (bases a))

-- The order does not look at an object that is in none of its places.
pub Behind-update :
    (bases : ℕ → Base) (a b : ℕ) (base : Base) (xs : List ℕ)
    → (a == b) ≡ false
    → contains xs a ≡ false
    → Behind bases b xs
    → Behind (update bases a base) b xs
unfolding contains
Behind-update bases a b base [] e n h = tt
Behind-update bases a b base (x ∷ xs) e n (h, hs) =
    ground (arith, Behind-update bases a b base xs e, eq_iff x a, eq_iff a x)

pub Sorted-update :
    (bases : ℕ → Base) (a : ℕ) (base : Base) (xs : List ℕ)
    → contains xs a ≡ false
    → Sorted bases xs
    → Sorted (update bases a base) xs
unfolding contains
Sorted-update bases a base [] n s = tt
Sorted-update bases a base (x ∷ xs) n (h, s) =
    ground (
      arith,
      Sorted-update bases a base xs,
      Behind-update bases a x base xs,
      eq_iff x a,
      eq_iff a x,
    )
