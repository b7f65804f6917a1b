-- ===== src/Decimal.antt =====
-- The decimal conversions of the C++ standard library that the source calls: `std::to_string` of an
-- unsigned number and `std::stoi`.
pub mod RoundTrip
use sonic_swss_common.Prelude.{
  ℕ, zero, suc, ◌+◌, ◌-◌, ◌*◌, ◌/◌, ◌%◌, ◌^◌, ◌≡◌, refl, Bool, true, false, ◌&&◌, ◌||◌, List, [],
  ◌∷◌, Option, none, some, Bytes, codes, ltb, leb, ◌==◌, nat_eq, if◌then◌else◌,
}

-- A C++ `int` as its value; `negsuc n` is -(n + 1).
pub data ℤ : Type 0 where
  pos : ℕ → ℤ
  negsuc : ℕ → ℤ

-- The digits of `n` in front of `out`. The fuel `n + 1` is enough, since `n / 10 < n` while `n` is
-- positive.
pub digits : ℕ → ℕ → Bytes → Bytes
digits zero n out = out
digits (suc f) n out =
    let rest = digits f (n / 10) ((b'0' + n % 10) ∷ out) in
    if ltb n 10 then (b'0' + n % 10) ∷ out else rest

unfoldable pub to_string : ℕ → Bytes
unfolding digits
to_string n = digits (suc n) n []

unfoldable pub is_digit : ℕ → Bool
is_digit c = leb b'0' c && leb c b'9'

-- `strtol` reads as long as there are digits, and leaves the rest.
unfoldable pub scan : ℕ → Bytes → ℕ
unfolding is_digit
scan n [] = n
scan n (c ∷ s) = elim (is_digit c) [ true ↦ scan (n * 10 + (c - b'0')) s | false ↦ n ]

unfoldable pub is_space : ℕ → Bool
is_space c = c == 32 || (leb 9 c && leb c 13)

unfoldable pub skip_space : Bytes → Bytes
unfolding is_space
skip_space [] = []
skip_space (c ∷ s) = let rest = skip_space s in if is_space c then rest else c ∷ s

-- `none` is the exception `std::invalid_argument` (no digits) or `std::out_of_range`.
unsigned_part : Bytes → Option ℕ
unfolding is_digit scan
unsigned_part [] = none
unsigned_part (c ∷ s) = if is_digit c then some (scan 0 (c ∷ s)) else none

negated : ℕ → ℤ
negated zero = pos 0
negated (suc n) = negsuc n

positive : Option ℕ → Option ℤ
positive none = none
positive (some n) = if ltb n (2 ^ 31) then some (pos n) else none

negative : Option ℕ → Option ℤ
unfolding negated
negative none = none
negative (some n) = if leb n (2 ^ 31) then some (negated n) else none

signed : Bytes → Option ℤ
unfolding positive negative unsigned_part
signed [] = none
signed (c ∷ s) =
    if c == b'-'
    then negative (unsigned_part s)
    else if c == b'+'
    then positive (unsigned_part s)
    else positive (unsigned_part (c ∷ s))

unfoldable pub stoi : Bytes → Option ℤ
unfolding signed skip_space
stoi s = signed (skip_space s)

to_string_tests :
    (to_string 0 ≡ codes "0") × (to_string 10 ≡ codes "10") × (to_string 4096 ≡ codes "4096")
unfolding to_string
to_string_tests = (refl, refl, refl)

stoi_tests :
    (stoi (codes " +12x") ≡ some (pos 12))
    × (stoi (codes "-7") ≡ some (negsuc 6))
    × (stoi (codes "x") ≡ none)
    × (stoi (codes "2147483648") ≡ none)
unfolding stoi
stoi_tests = (refl, refl, refl, refl)

-- A `unsigned long` has 64 bits. `strtoul` reads a sign, and negates what follows modulo 2^64.
negated_word : ℕ → ℕ
negated_word n = (2 ^ 64 - n) % 2 ^ 64

word_of : Bool → ℕ → Option ℕ
unfolding negated_word
word_of minus n = if ltb n (2 ^ 64) then some (if minus then negated_word n else n) else none

-- `std::stoul`: `none` is an exception, for no digits or for a number above the largest.
unfoldable pub stoul : Bytes → Option ℕ
unfolding skip_space unsigned_part word_of
stoul s = elim (skip_space s) [
  | [] ↦ none
  | c ∷ t ↦
      let minus = c == b'-' in
      elim (unsigned_part (if minus || c == b'+' then t else c ∷ t)) [
        | none ↦ none
        | some n ↦ word_of minus n
      ]
]

-- The value of a digit in a base up to 16.
unfoldable pub digit_value : ℕ → Option ℕ
digit_value c =
    if leb b'0' c && leb c b'9'
    then some (c - b'0')
    else if leb b'a' c && leb c b'f'
    then some (c - b'a' + 10)
    else if leb b'A' c && leb c b'F'
    then some (c - b'A' + 10)
    else none

unfoldable pub scan_base : ℕ → ℕ → Bytes → ℕ
unfolding digit_value
scan_base base n [] = n
scan_base base n (c ∷ s) = elim (digit_value c) [
  | none ↦ n
  | some d ↦ let more = scan_base base (n * base + d) s in if ltb d base then more else n
]

-- Whether the first character is a digit to the base 16.
starts_hex : Bytes → Bool
unfolding digit_value
starts_hex [] = false
starts_hex (c ∷ s) = elim (digit_value c) [ none ↦ false | some d ↦ true ]

-- The base 0 of `strtoul` is 16 after "0x", 8 after another "0", and otherwise 10. Without digits
-- the number is 0.
unfoldable pub scan_any_base : Bytes → ℕ
unfolding scan_base starts_hex
scan_any_base (c ∷ x ∷ s) =
    if c == b'0'
    then if (x == b'x' || x == b'X') && starts_hex s
      then scan_base 16 0 s
      else scan_base 8 0 (x ∷ s)
    else scan_base 10 0 (c ∷ x ∷ s)
scan_any_base s = scan_base 10 0 s

-- `strtoul` with the base 0: the largest number stands for all above it.
unfoldable pub strtoul : Bytes → ℕ
unfolding skip_space word_of scan_any_base
strtoul s = elim (skip_space s) [
  | [] ↦ 0
  | c ∷ t ↦
      let minus = c == b'-' in
      elim (word_of minus (scan_any_base (if minus || c == b'+' then t else c ∷ t))) [
        | none ↦ 2 ^ 64 - 1
        | some n ↦ n
      ]
]

strtoul_tests :
    (strtoul (codes "120") ≡ 120)
    × (strtoul (codes "0x10") ≡ 16)
    × (strtoul (codes "010") ≡ 8)
    × (strtoul (codes "x") ≡ 0)
    × (strtoul (codes "99999999999999999999") ≡ 2 ^ 64 - 1)
    × (stoul (codes " 7x") ≡ some 7)
unfolding strtoul stoul
strtoul_tests = (refl, refl, refl, refl, refl, refl)
