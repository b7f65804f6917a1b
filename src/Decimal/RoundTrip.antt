-- ===== src/Decimal/RoundTrip.antt =====
-- `stoi` undoes `to_string`.
use sonic_swss_common.Prelude.{
  ℕ, zero, suc, ◌+◌, ◌/◌, ◌%◌, ◌^◌, ◌<◌, ◌≤◌, ◌≡◌, ap, ◌∙◌, [], ◌∷◌, some, arith, Bytes, Lacks, ltb,
  Bool-cases, inl, inr,
}
use sonic_swss_common.Decimal.{digits, to_string, scan, stoi, stoul, pos}

-- Reading the digits of `n` from 0 leaves the reader where it stood with `n` behind it.
scan-digits : (f n : ℕ) (out : Bytes) → n < f → scan 0 (digits f n out) ≡ scan n out
unfolding scan digits
scan-digits zero n out h = absurd (omega arith)
scan-digits (suc f) n out h = ground (arith, scan-digits f (n / 10) ((b'0' + n % 10) ∷ out))

pub scan-to_string : (n : ℕ) → scan 0 (to_string n) ≡ n
unfolding to_string scan
scan-to_string n = scan-digits (suc n) n [] (omega arith)

abbrev pub StartsWithDigit : Bytes → Type 0
StartsWithDigit [] = ⊥
StartsWithDigit (c ∷ s) = (b'0' ≤ c) × (c ≤ b'9')

digits-StartsWithDigit : (f n : ℕ) (out : Bytes) → n < f → StartsWithDigit (digits f n out)
unfolding digits
digits-StartsWithDigit zero n out h = absurd (omega arith)
digits-StartsWithDigit (suc f) n out h = elim (Bool-cases (ltb n 10)) [
  | inl e ↦ rw e (omega arith)
  | inr e ↦ rw e (digits-StartsWithDigit f (n / 10) ((b'0' + n % 10) ∷ out) (ground arith))
]

stoi_of_digits :
    (s : Bytes) → StartsWithDigit s → scan 0 s < 2 ^ 31 → stoi s ≡ some (pos (scan 0 s))
unfolding stoi
stoi_of_digits [] d h = absurd d
stoi_of_digits (c ∷ s) d h = ground arith

pub to_string-StartsWithDigit : (n : ℕ) → StartsWithDigit (to_string n)
unfolding to_string
to_string-StartsWithDigit n = digits-StartsWithDigit (suc n) n [] (omega arith)

pub stoi-to_string : (n : ℕ) → n < 2 ^ 31 → stoi (to_string n) ≡ some (pos n)
stoi-to_string n h =
    stoi_of_digits (to_string n) (to_string-StartsWithDigit n) (omega (arith, scan-to_string n))
    ∙ ap (λ m. some (pos m)) (scan-to_string n)

stoul_of_digits : (s : Bytes) → StartsWithDigit s → scan 0 s < 2 ^ 64 → stoul s ≡ some (scan 0 s)
unfolding stoul
stoul_of_digits [] d h = absurd d
stoul_of_digits (c ∷ s) d h = ground arith

pub stoul-to_string : (n : ℕ) → n < 2 ^ 64 → stoul (to_string n) ≡ some n
stoul-to_string n h =
    stoul_of_digits (to_string n) (to_string-StartsWithDigit n) (omega (arith, scan-to_string n))
    ∙ ap (λ m. some m) (scan-to_string n)

digits-Lacks : (b f n : ℕ) (out : Bytes) → b'9' < b → n < f → Lacks b out → Lacks b (digits f n out)
unfolding digits
digits-Lacks b zero n out h lt free = free
digits-Lacks b (suc f) n out h lt free = elim (Bool-cases (ltb n 10)) [
  | inl e ↦ rw e ((λ (same : b'0' + n % 10 ≡ b). omega arith), free)
  | inr e ↦ rw e (
      digits-Lacks b f (n / 10) ((b'0' + n % 10) ∷ out) h (ground arith)
        ((λ (same : b'0' + n % 10 ≡ b). omega arith), free))
]

-- There are only digits in the print of a number.
pub to_string-Lacks : (b n : ℕ) → b'9' < b → Lacks b (to_string n)
unfolding to_string
to_string-Lacks b n h = digits-Lacks b (suc n) n [] h (omega arith) tt
