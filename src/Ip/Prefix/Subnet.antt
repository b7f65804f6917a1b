-- ===== src/Ip/Prefix/Subnet.antt =====
-- The subnet of a prefix, and its broadcast address.
use sonic_swss_common.Prelude.Maybe.{◌>>=◌}
use sonic_swss_common.Prelude.{
  ◌-◌, ◌*◌, ◌≤◌, true, ◌∷◌, ◌++◌, some, Bytes, length, take, replicate, nat_eq, bytes_eq, ◌≡◌, ◌↔◌,
  inl, inr, refl, sym, ap, ◌∙◌, subst, arith,
}
use sonic_swss_common.Decimal
use sonic_swss_common.Decimal.{pos}
use sonic_swss_common.Ip
use sonic_swss_common.Ip.{af_inet, af_inet6, IpAddress, IsAddress, HasSize, IsOctets, Inet}
use sonic_swss_common.Ip.Prefix.{
  IpPrefix, IsPrefix, make, and_octets, or_not_octets, is_address_in_subnet, subnet_of, get_subnet,
  get_broadcast_ip, ip_prefix, to_string,
}
use sonic_swss_common.Ip.Prefix.Bits.{bits, length-bits}
use sonic_swss_common.Ip.Prefix.Masks.{
  mask_octets, get_mask_lem, IsOctets-and_octets, bits-and_octets, IsOctets-or_not_octets,
  bits-or_not_octets, and_octets_agree,
}
use sonic_swss_common.Ip.Prefix.Filled.{take-take}
use sonic_swss_common.Ip.Prefix.RoundTrip.{make_lem, ip_prefix-to_string}
use sonic_swss_common.Ip.Prefix.Membership.{mask_of, Covers, is_address_in_subnet_lem, same_answer}

-- The prefix whose address has the first bits of a prefix's, and zeros behind them.
abbrev pub subnet : IpPrefix → IpPrefix
subnet p = record {
  ip = record {
    family = p.ip.family;
    octets = and_octets p.ip.octets (mask_octets (length p.ip.octets) p.mask);
  };
  mask = p.mask;
}

subnet-IsPrefix : (p : IpPrefix) → IsPrefix p → IsPrefix (subnet p)
subnet-IsPrefix p v =
    let (small, size) =
      IsOctets-and_octets (length p.ip.octets) p.mask p.ip.octets refl v.is_address.are_octets in
    record {
      is_address = record {
        has_size = subst (HasSize p.ip.family) (sym size) v.is_address.has_size;
        are_octets = small;
      };
      in_width = subst (λ n. p.mask ≤ 8 * n) (sym size) v.in_width;
    }

subnet-Covers : (p : IpPrefix) (a : IpAddress) → IsPrefix p → Covers (subnet p) a ↔ Covers p a
subnet-Covers p a v =
    let long : p.mask ≤ length (bits p.ip.octets) =
      let h = v.in_width in omega (arith, length-bits p.ip.octets) in
    let e =
      ap (take p.mask)
        (bits-and_octets (length p.ip.octets) p.mask p.ip.octets refl v.is_address.are_octets)
      ∙ take-take p.mask (bits p.ip.octets) (replicate (8 * length p.ip.octets - p.mask) 0) long in
    (λ (family, h). (family, sym e ∙ h), λ (family, h). (family, e ∙ h))

masked_twice :
    (p : IpPrefix)
    → IsPrefix p
    → and_octets (subnet p).ip.octets (mask_of (subnet p)) ≡ (subnet p).ip.octets
masked_twice p v =
    let n = length p.ip.octets in
    let o = (subnet p).ip.octets in
    let (small, size) = IsOctets-and_octets n p.mask p.ip.octets refl v.is_address.are_octets in
    let (_, first) = (subnet-Covers p p.ip v).1 (refl, refl) in
    subst (λ k. and_octets o (mask_octets k p.mask) ≡ o) (sym size)
      ((and_octets_agree n p.mask o p.ip.octets size refl small v.is_address.are_octets
          v.in_width).1
        first)

module _ (inet : Inet) where
  subnet_of4 :
      (p : IpPrefix) (o : Bytes)
      → p.ip.family ≡ af_inet
      → subnet_of inet p o ≡ make (record { family = p.ip.family; octets = o }) (pos p.mask)
  unfolding subnet_of
  subnet_of4 p o e = rw e refl

  subnet_of6 :
      (p : IpPrefix) (o : Bytes)
      → p.ip.family ≡ af_inet6
      → subnet_of inet p o
        ≡ ip_prefix inet (inet.ntop p.ip.family o ++ b'/' ∷ Decimal.to_string p.mask)
  unfolding subnet_of
  subnet_of6 p o e = rw e refl

  subnet_of_masked :
      (p : IpPrefix)
      → IsPrefix p
      → subnet_of inet p (and_octets p.ip.octets (mask_of p)) ≡ some (subnet p)
  unfolding to_string Ip.to_string
  subnet_of_masked p v =
      let v' = subnet-IsPrefix p v in
      let o = and_octets p.ip.octets (mask_of p) in
      elim v.is_address.has_size [
        | inl (family, size) ↦ subnet_of4 p o family ∙ make_lem (subnet p) v'
        | inr (family, size) ↦ subnet_of6 p o family ∙ ip_prefix-to_string inet (subnet p) v'
      ]

  get_subnet_lem : (p : IpPrefix) → IsPrefix p → get_subnet inet p ≡ some (subnet p)
  unfolding get_subnet
  get_subnet_lem p v =
      ap (λ t. t >>= λ mask. subnet_of inet p (and_octets p.ip.octets mask.octets))
        (get_mask_lem p v)
      ∙ subnet_of_masked p v

  -- The subnet of a prefix is a prefix of the same family and length, whose address has the first
  -- bits of the prefix's and zeros behind them. The same addresses lie in both, and the subnet is
  -- its own subnet.
  pub get_subnet_sound :
      (p : IpPrefix) (a : IpAddress)
      → IsPrefix p
      → IsAddress a
      → (s : IpPrefix) × (get_subnet inet p ≡ some s)
        × IsPrefix s
        × ((s.ip.family ≡ p.ip.family) × (s.mask ≡ p.mask))
        × (bits s.ip.octets
            ≡ take p.mask (bits p.ip.octets) ++ replicate (8 * length p.ip.octets - p.mask) 0)
        × (is_address_in_subnet s a ≡ is_address_in_subnet p a)
        × (get_subnet inet s ≡ some s)
  get_subnet_sound p a v w =
      let v' = subnet-IsPrefix p v in
      let bs =
        bits-and_octets (length p.ip.octets) p.mask p.ip.octets refl v.is_address.are_octets in
      (
        subnet p,
        get_subnet_lem p v,
        v',
        (refl, refl),
        bs,
        same_answer p (subnet p) a v v' w (subnet-Covers p a v),
        get_subnet_lem (subnet p) v'
            ∙ ap
                (λ o.
                  some (record { ip = record { family = p.ip.family; octets = o }; mask = p.mask }))
                (masked_twice p v),
      )

-- The broadcast address of a prefix is the address of its subnet whose bits behind the first are
-- ones.
pub get_broadcast_ip_sound :
    (p : IpPrefix)
    → IsPrefix p
    → (a : IpAddress) × (get_broadcast_ip p ≡ some a)
      × IsAddress a
      × (bits a.octets
          ≡ take p.mask (bits p.ip.octets) ++ replicate (8 * length p.ip.octets - p.mask) 1)
      × (is_address_in_subnet p a ≡ some true)
unfolding get_broadcast_ip
get_broadcast_ip_sound p v =
    let n = length p.ip.octets in
    let octets = or_not_octets p.ip.octets (mask_of p) in
    let (small, size) = IsOctets-or_not_octets n p.mask p.ip.octets refl v.is_address.are_octets in
    let bs = bits-or_not_octets n p.mask p.ip.octets refl v.is_address.are_octets in
    let a : IpAddress = record { family = p.ip.family; octets = octets } in
    let w : IsAddress a = record {
      has_size = subst (HasSize p.ip.family) (sym size) v.is_address.has_size;
      are_octets = small;
    } in
    let long : p.mask ≤ length (bits p.ip.octets) =
      let h = v.in_width in omega (arith, length-bits p.ip.octets) in
    let first = sym (
      ap (take p.mask) bs
      ∙ take-take p.mask (bits p.ip.octets) (replicate (8 * n - p.mask) 1) long) in
    let (b, run, test) = is_address_in_subnet_lem p a v w in
    (a, rw (get_mask_lem p v) refl, w, bs, run ∙ ap (λ t. some t) (test.1 (refl, first)))
