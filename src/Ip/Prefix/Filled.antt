-- ===== src/Ip/Prefix/Filled.antt =====
-- Lists of bits cut and filled at a position, octet by octet.
use sonic_swss_common.Prelude.{
  ℕ, zero, suc, ◌+◌, ◌-◌, ◌*◌, ◌≤◌, ◌<◌, List, [], ◌∷◌, ◌++◌, length, take, replicate, ltb,
  if◌then◌else◌, ◌≡◌, ◌⊎◌, inl, inr, refl, ap, arith, append_assoc, append-nil,
}

unfoldable pub least : ℕ → ℕ
least m = if ltb m 8 then m else 8

le_cases : (m : ℕ) → (m < 8) ⊎ (8 ≤ m)
le_cases m = ground arith

least_small : (m : ℕ) → m < 8 → least m ≡ m
unfolding least
least_small m h = ground arith

least_large : (m : ℕ) → 8 ≤ m → least m ≡ 8
unfolding least
least_large m h = ground arith

pub least_bound : (m : ℕ) → least m ≤ 8
unfolding least
least_bound m = ground arith

module _ {ℓ} {A : Type ℓ} where
  take_split :
      (m k : ℕ) (xs ys : List A) → k ≡ m - length xs → take m (xs ++ ys) ≡ take m xs ++ take k ys
  take_split zero k [] ys e = let k0 : k ≡ 0 = omega arith in rw k0 refl
  take_split (suc m) k [] ys e = let k0 : k ≡ suc m = omega arith in rw k0 refl
  take_split zero k (x ∷ xs) ys e = let k0 : k ≡ 0 = omega arith in rw k0 refl
  take_split (suc m) k (x ∷ xs) ys e = ap (λ t. x ∷ t) (take_split m k xs ys (omega arith))

  replicate_append :
      (a b c : ℕ) (x : A) → c ≡ a + b → replicate a x ++ replicate b x ≡ replicate c x
  replicate_append zero b c x e = ap (λ k. replicate k x) (omega arith)
  replicate_append (suc a) b zero x e = absurd (omega arith)
  replicate_append (suc a) b (suc c) x e = ap (λ t. x ∷ t) (replicate_append a b c x (omega arith))

  take_all : (m : ℕ) (xs : List A) → length xs ≤ m → take m xs ≡ xs
  take_all zero [] h = refl
  take_all zero (x ∷ xs) h = absurd (omega arith)
  take_all (suc m) [] h = refl
  take_all (suc m) (x ∷ xs) h = ap (λ t. x ∷ t) (take_all m xs (omega arith))

  -- The first octet of a filled prefix, and the others.
  pub filled_octet :
      (m n : ℕ) (x : A) (xs ys : List A)
      → length xs ≡ 8
      → (take (least m) xs ++ replicate (8 - least m) x)
          ++ (take (m - 8) ys ++ replicate (8 * n - (m - 8)) x)
        ≡ take m (xs ++ ys) ++ replicate (8 * suc n - m) x
  filled_octet m n x xs ys e = elim (le_cases m) [
    | inl h ↦
        let none_left : m - 8 ≡ 0 = omega arith in
        let fill = replicate_append (8 - m) (8 * n - 0) (8 * suc n - m) x (omega arith) in
        let split = take_split m 0 xs ys (omega arith) in
        rw (least_small m h, none_left, split, append-nil, append_assoc)
          (ap (λ t. take m xs ++ t) fill)
    | inr h ↦
        let all8 = take_all 8 xs (omega arith) in
        let all_m = take_all m xs (omega arith) in
        let split = take_split m (m - 8) xs ys (omega arith) in
        let same : 8 * suc n - m ≡ 8 * n - (m - 8) = omega arith in
        rw (least_large m h, all8, split, all_m, same, append-nil, append_assoc) refl
  ]

pub joined {ℓ} : {A : Type ℓ} {xs xs' ys ys' : List A} → xs ≡ xs' → ys ≡ ys' → xs ++ ys ≡ xs' ++ ys'
joined e f = cc

pub empty_fill : (m x : ℕ) → [] ≡ take m [] ++ replicate (0 - m) x
empty_fill zero x = refl
empty_fill (suc m) x = let none_left : 0 - suc m ≡ 0 = omega arith in rw none_left refl

pub take-take {ℓ} :
    {A : Type ℓ} (m : ℕ) (xs ys : List A) → m ≤ length xs → take m (take m xs ++ ys) ≡ take m xs
take-take zero xs ys h = refl
take-take (suc m) [] ys h = absurd (omega arith)
take-take (suc m) (x ∷ xs) ys h = ap (λ t. x ∷ t) (take-take m xs ys (omega arith))
