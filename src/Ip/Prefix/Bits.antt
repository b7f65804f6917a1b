-- ===== src/Ip/Prefix/Bits.antt =====
-- The bits of octets, from the first to the last, and what masking an octet does to them.
use Prim.Native.Nat.{bit_and, bit_or}
use sonic_swss_common.Prelude.{
  ℕ, ◌+◌, ◌-◌, ◌*◌, ◌/◌, ◌%◌, ◌^◌, ◌≤◌, ◌<◌, Bool, true, ◌&&◌, List, [], ◌∷◌, ◌++◌, Bytes, length,
  take, replicate, ltb, ◌==◌, nat_eq, bytes_eq, bytes_beq, ◌≡◌, refl, sym, ap, ◌∙◌, arith,
  all_below, all_below_sound, eq_iff, bytes_beq_iff, ltb→lt, take-append, drop-append, drop,
}
use sonic_swss_common.Ip.{IsOctets}

-- The bits of a number, from the weight `w` downwards.
unfoldable pub octet_bits : ℕ → List ℕ
octet_bits b =
    b / 128 % 2
    ∷ b / 64 % 2
    ∷ b / 32 % 2
    ∷ b / 16 % 2
    ∷ b / 8 % 2
    ∷ b / 4 % 2
    ∷ b / 2 % 2
    ∷ b % 2
    ∷ []

unfoldable pub bits : Bytes → List ℕ
unfolding octet_bits
bits [] = []
bits (b ∷ bs) = octet_bits b ++ bits bs

-- The octet whose first `k` bits are ones.
unfoldable pub ones : ℕ → ℕ
ones k = 256 - 2 ^ (8 - k)

unfoldable pub octet_ok : ℕ → ℕ → Bool
unfolding octet_bits ones
octet_ok k b =
    octet_bits (bit_and b (ones k)) == take k (octet_bits b) ++ replicate (8 - k) 0
    && octet_bits (bit_or b (255 - ones k)) == take k (octet_bits b) ++ replicate (8 - k) 1
    && ltb (bit_and b (ones k)) 256
    && ltb (bit_or b (255 - ones k)) 256

octet_table : all_below 9 (λ k. all_below 256 (octet_ok k)) ≡ true
unfolding all_below octet_ok bytes_beq
octet_table = refl

octet_fact : (k b : ℕ) → k ≤ 8 → b < 256 → octet_ok k b ≡ true
octet_fact k b hk hb =
    all_below_sound 256 (octet_ok k) b
      (all_below_sound 9 (λ k. all_below 256 (octet_ok k)) k octet_table (omega arith)) hb

both : (p q : Bool) → (p && q) ≡ true → (p ≡ true) × (q ≡ true)
both p q h = ground arith

pub octet_parts :
    (k b : ℕ)
    → k ≤ 8
    → b < 256
    → (octet_bits (bit_and b (ones k)) ≡ take k (octet_bits b) ++ replicate (8 - k) 0)
      × (octet_bits (bit_or b (255 - ones k)) ≡ take k (octet_bits b) ++ replicate (8 - k) 1)
      × (bit_and b (ones k) < 256)
      × (bit_or b (255 - ones k) < 256)
unfolding octet_ok
octet_parts k b hk hb =
    let (first3, small') = both _ _ (octet_fact k b hk hb) in
    let (first2, small) = both _ _ first3 in
    let (ands, ors) = both _ _ first2 in
    ((bytes_beq_iff _ _).0 ands, (bytes_beq_iff _ _).0 ors, ltb→lt _ 256 small, ltb→lt _ 256 small')

-- The number that bits give.
unfoldable weigh : ℕ → List ℕ → ℕ
weigh w [] = w
weigh w (b ∷ bs) = weigh (2 * w + b) bs

weigh_table : all_below 256 (λ b. weigh 0 (octet_bits b) == b) ≡ true
unfolding all_below weigh octet_bits
weigh_table = refl

weigh-octet_bits : (b : ℕ) → b < 256 → weigh 0 (octet_bits b) ≡ b
weigh-octet_bits b h =
    (eq_iff (weigh 0 (octet_bits b)) b).0
      (all_below_sound 256 (λ b. weigh 0 (octet_bits b) == b) b weigh_table h)

octet_bits_injective : (b c : ℕ) → b < 256 → c < 256 → octet_bits b ≡ octet_bits c → b ≡ c
octet_bits_injective b c hb hc e =
    sym (weigh-octet_bits b hb) ∙ ap (weigh 0) e ∙ weigh-octet_bits c hc

octet_bits_append :
    (b c : ℕ) (xs ys : List ℕ)
    → octet_bits b ++ xs ≡ octet_bits c ++ ys
    → (octet_bits b ≡ octet_bits c) × (xs ≡ ys)
unfolding octet_bits
octet_bits_append b c xs ys e = (
  take-append (octet_bits b) xs ∙ ap (take 8) e ∙ take-append (octet_bits c) ys,
  drop-append (octet_bits b) xs ∙ ap (drop 8) e ∙ drop-append (octet_bits c) ys,
)

-- Octets are known by their bits.
pub bits_injective :
    (bs cs : Bytes)
    → length bs ≡ length cs
    → IsOctets bs
    → IsOctets cs
    → bits bs ≡ bits cs
    → bs ≡ cs
unfolding bits
bits_injective [] [] e hb hc same = refl
bits_injective [] (c ∷ cs) e hb hc same = absurd (omega arith)
bits_injective (b ∷ bs) [] e hb hc same = absurd (omega arith)
bits_injective (b ∷ bs) (c ∷ cs) e (b256, hb) (c256, hc) same =
    let (head, tail) = octet_bits_append b c (bits bs) (bits cs) same in
    let first = octet_bits_injective b c b256 c256 head in
    let rest = bits_injective bs cs (omega arith) hb hc tail in cc

pub length-bits : (bs : Bytes) → length (bits bs) ≡ 8 * length bs
unfolding bits
length-bits [] = omega arith
length-bits (b ∷ bs) = omega (arith, length-bits bs)
