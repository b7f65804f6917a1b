-- ===== src/Ip/Prefix/Membership.antt =====
-- Whether an address lies in a subnet.
use Prim.Native.Nat.{bit_and}
use sonic_swss_common.Prelude.{
  ℕ, zero, suc, Bool, true, false, [], ◌∷◌, some, Bytes, length, take, ◌==◌, nat_eq, bytes_eq,
  eq_iff, if◌then◌else◌, ◌≡◌, ◌≢◌, ◌↔◌, inl, inr, refl, sym, ap, ◌∙◌, arith, Bool-cases,
}
use sonic_swss_common.Ip.{af_inet, IpAddress, IsAddress}
use sonic_swss_common.Ip.Prefix.{IpPrefix, IsPrefix, and_octets, same_masked, is_address_in_subnet}
use sonic_swss_common.Ip.Prefix.Bits.{bits}
use sonic_swss_common.Ip.Prefix.Masks.{
  mask_octets, length-mask_octets, get_mask_lem, and_octets_agree,
}

-- The loop with its early return is a comparison of what the masks leave.
same_masked_lem :
    (n : ℕ) (bs ms cs : Bytes)
    → length bs ≡ n
    → length ms ≡ n
    → length cs ≡ n
    → (same_masked bs ms cs ≡ true) ↔ (and_octets bs ms ≡ and_octets cs ms)
unfolding same_masked and_octets
same_masked_lem zero [] [] [] eb em ec = (λ _. refl, λ _. refl)
same_masked_lem (suc n) (b ∷ bs) (m ∷ ms) (c ∷ cs) eb em ec =
    ground (arith, same_masked_lem n bs ms cs, eq_iff (bit_and b m) (bit_and c m))
same_masked_lem n bs ms cs eb em ec = absurd (omega arith)

pub same_size :
    (p : IpPrefix) (a : IpAddress)
    → IsAddress p.ip
    → IsAddress a
    → p.ip.family ≡ a.family
    → length a.octets ≡ length p.ip.octets
same_size p a v w e = elim v.has_size [
  | inl (family, size) ↦ elim w.has_size [ inl (f, s) ↦ omega arith | inr (f, s) ↦ omega arith ]
  | inr (family, size) ↦ elim w.has_size [ inl (f, s) ↦ omega arith | inr (f, s) ↦ omega arith ]
]

-- The mask of a prefix.
abbrev pub mask_of : IpPrefix → Bytes
mask_of p = mask_octets (length p.ip.octets) p.mask

same_family :
    (p : IpPrefix) (a : IpAddress)
    → IsPrefix p
    → p.ip.family ≡ a.family
    → is_address_in_subnet p a ≡ (
        if p.ip.family == af_inet
        then some (and_octets p.ip.octets (mask_of p) == and_octets a.octets (mask_of p))
        else some (same_masked p.ip.octets (mask_of p) a.octets))
unfolding is_address_in_subnet
same_family p a v e =
    let same : (p.ip.family == a.family) ≡ true = ground arith in rw (same, get_mask_lem p v) refl

other_family :
    (p : IpPrefix) (a : IpAddress) → p.ip.family ≢ a.family → is_address_in_subnet p a ≡ some false
unfolding is_address_in_subnet
other_family p a e = let other : (p.ip.family == a.family) ≡ false = ground arith in rw other refl

-- For addresses of one family, the test compares what the mask leaves.
masked_test :
    (p : IpPrefix) (a : IpAddress)
    → IsPrefix p
    → IsAddress a
    → p.ip.family ≡ a.family
    → (b : Bool) × (is_address_in_subnet p a ≡ some b)
      × ((b ≡ true) ↔ (and_octets p.ip.octets (mask_of p) ≡ and_octets a.octets (mask_of p)))
masked_test p a v w e = elim (Bool-cases (p.ip.family == af_inet)) [
  | inl four ↦ (
    _,
    same_family p a v e ∙ rw four refl,
    eq_iff (and_octets p.ip.octets (mask_of p)) (and_octets a.octets (mask_of p)),
  )
  | inr six ↦ (
    _,
    same_family p a v e ∙ rw six refl,
    same_masked_lem (length p.ip.octets) p.ip.octets (mask_of p) a.octets refl
        (length-mask_octets (length p.ip.octets) p.mask) (same_size p a v.is_address w e),
  )
]

-- The first bits of the two addresses are the same.
abbrev pub Covers : IpPrefix → IpAddress → Type 0
Covers p a =
    (p.ip.family ≡ a.family) × (take p.mask (bits p.ip.octets) ≡ take p.mask (bits a.octets))

-- The test answers for each prefix and each address, and says yes just where the address has the
-- family of the prefix, and as many of its first bits as the prefix is long.
pub is_address_in_subnet_lem :
    (p : IpPrefix) (a : IpAddress)
    → IsPrefix p
    → IsAddress a
    → (b : Bool) × (is_address_in_subnet p a ≡ some b) × ((b ≡ true) ↔ Covers p a)
is_address_in_subnet_lem p a v w = elim (Bool-cases (p.ip.family == a.family)) [
  | inr other ↦
      let e : p.ip.family ≢ a.family = ground arith in
      (false, other_family p a e, (λ h. absurd cc, λ (h, _). absurd (e h)))
  | inl same ↦
      let e = (eq_iff p.ip.family a.family).0 same in
      let (b, run, test) = masked_test p a v w e in
      let agree =
        and_octets_agree (length p.ip.octets) p.mask p.ip.octets a.octets refl
          (same_size p a v.is_address w e) v.is_address.are_octets w.are_octets v.in_width in
      (b, run, (λ h. (e, agree.0 (test.0 h)), λ (_, h). test.1 (agree.1 h)))
]

-- The test answers the same for two prefixes that cover the same.
pub same_answer :
    (p q : IpPrefix) (a : IpAddress)
    → IsPrefix p
    → IsPrefix q
    → IsAddress a
    → Covers q a ↔ Covers p a
    → is_address_in_subnet q a ≡ is_address_in_subnet p a
same_answer p q a v w x same =
    let (b, run, test) = is_address_in_subnet_lem p a v x in
    let (b', run', test') = is_address_in_subnet_lem q a w x in
    let e : b' ≡ b = ground arith in run' ∙ ap (λ t. some t) e ∙ sym run
