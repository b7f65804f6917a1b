-- ===== src/Ip/Examples.antt =====
-- Tests of addresses and prefixes, and their theorems at concrete inputs.
use sonic_swss_common.Prelude.{
  ℕ, ◌-◌, ◌*◌, not, ◌&&◌, ◌||◌, Bool, true, false, List, [], ◌∷◌, ◌++◌, none, some, codes,
  bytes_beq, find, take, replicate, ◌≡◌, ◌↔◌, inl, inr, refl, arith,
}
use sonic_swss_common.Decimal.{stoi}
use sonic_swss_common.Ip.{af_inet, af_inet6, IpAddress, IsAddress, less, equal}
use sonic_swss_common.Ip.Hex.{hex}
use sonic_swss_common.Ip.Addresses.{add, contains, remove, set_text, ip_addresses}
use sonic_swss_common.Ip.Addresses.Members.{contains_changed}
use sonic_swss_common.Ip.Prefix.{
  IpPrefix, IsPrefix, get_mask, is_address_in_subnet, get_subnet, get_broadcast_ip, ip_prefix,
  to_string,
}
use sonic_swss_common.Ip.Prefix.Bits.{bits}
use sonic_swss_common.Ip.Prefix.RoundTrip.{ip_prefix_sound}
use sonic_swss_common.Ip.Prefix.Membership.{Covers, is_address_in_subnet_lem}
use sonic_swss_common.Ip.Prefix.Subnet.{get_subnet_sound, get_broadcast_ip_sound}

abbrev v4 : ℕ → ℕ → ℕ → ℕ → IpAddress
v4 a b c d = record { family = af_inet; octets = a ∷ b ∷ c ∷ d ∷ [] }

-- 192.168.0.1/27
abbrev lan : IpPrefix
lan = record { ip = v4 192 168 0 1; mask = 27 }

-- fe80:0:0:1::9/58
abbrev link : IpPrefix
link = record {
  ip = record {
    family = af_inet6;
    octets = 254 ∷ 128 ∷ 0 ∷ 0 ∷ 0 ∷ 0 ∷ 0 ∷ 65 ∷ 0 ∷ 0 ∷ 0 ∷ 0 ∷ 0 ∷ 0 ∷ 0 ∷ 9 ∷ [];
  };
  mask = 58;
}

-- fe80:0:0:7f::1
abbrev link_local : IpAddress
link_local = record {
  family = af_inet6;
  octets = 254 ∷ 128 ∷ 0 ∷ 0 ∷ 0 ∷ 0 ∷ 0 ∷ 127 ∷ 0 ∷ 0 ∷ 0 ∷ 0 ∷ 0 ∷ 0 ∷ 0 ∷ 1 ∷ [];
}

link_local-IsAddress : IsAddress link_local
link_local-IsAddress = record { has_size = inr (refl, refl); are_octets = omega arith }

link_test : is_address_in_subnet link link_local ≡ some true
unfolding is_address_in_subnet
link_test = refl

lan-IsPrefix : IsPrefix lan
lan-IsPrefix = record {
  is_address = record { has_size = inl (refl, refl); are_octets = omega arith };
  in_width = omega arith;
}

link-IsPrefix : IsPrefix link
link-IsPrefix = record {
  is_address = record { has_size = inr (refl, refl); are_octets = omega arith };
  in_width = omega arith;
}

neighbour-IsAddress : IsAddress (v4 192 168 0 30)
neighbour-IsAddress = record { has_size = inl (refl, refl); are_octets = omega arith }

mask_test : get_mask lan ≡ some (v4 255 255 255 224)
unfolding get_mask
mask_test = refl

broadcast_test : get_broadcast_ip lan ≡ some (v4 192 168 0 31)
unfolding get_broadcast_ip
broadcast_test = refl

subnet_test :
    (is_address_in_subnet lan (v4 192 168 0 30) ≡ some true)
    × (is_address_in_subnet lan (v4 192 168 0 32) ≡ some false)
unfolding is_address_in_subnet bytes_beq
subnet_test = (refl, refl)

-- An IPv4 address is compared as the machine reads its octets, the last one first in weight.
less_test : less (v4 10 0 0 2) (v4 9 0 0 3) ≡ true
unfolding less
less_test = refl

hex_test : ip_prefix hex (codes "c0a80001/27") ≡ some lan
unfolding ip_prefix hex find stoi
hex_test = refl

no_mask_test : ip_prefix hex (codes "c0a80001/33") ≡ none
unfolding ip_prefix hex find stoi
no_mask_test = refl

ip_prefix_sound_example : IsPrefix lan × (ip_prefix hex (to_string hex lan) ≡ some lan)
ip_prefix_sound_example = ip_prefix_sound hex (codes "c0a80001/27") lan hex_test

is_address_in_subnet_lem_example :
    (b : Bool) × (is_address_in_subnet lan (v4 192 168 0 30) ≡ some b)
    × ((b ≡ true) ↔ Covers lan (v4 192 168 0 30))
is_address_in_subnet_lem_example =
    is_address_in_subnet_lem lan (v4 192 168 0 30) lan-IsPrefix neighbour-IsAddress

get_subnet_sound_example :
    (s : IpPrefix) × (get_subnet hex link ≡ some s)
    × IsPrefix s
    × ((s.ip.family ≡ link.ip.family) × (s.mask ≡ 58))
    × (bits s.ip.octets ≡ take 58 (bits link.ip.octets) ++ replicate (8 * 16 - 58) 0)
    × (is_address_in_subnet s link_local ≡ is_address_in_subnet link link_local)
    × (get_subnet hex s ≡ some s)
get_subnet_sound_example = get_subnet_sound hex link link_local link-IsPrefix link_local-IsAddress

get_broadcast_ip_sound_example :
    (a : IpAddress) × (get_broadcast_ip lan ≡ some a)
    × IsAddress a
    × (bits a.octets ≡ take 27 (bits lan.ip.octets) ++ replicate (8 * 4 - 27) 1)
    × (is_address_in_subnet lan a ≡ some true)
get_broadcast_ip_sound_example = get_broadcast_ip_sound lan lan-IsPrefix

gateway-IsAddress : IsAddress (v4 192 168 0 1)
gateway-IsAddress = record { has_size = inl (refl, refl); are_octets = omega arith }

abbrev hosts : List IpAddress
hosts = v4 192 168 0 1 ∷ v4 192 168 0 30 ∷ []

set_test :
    (add (v4 192 168 0 1) (add (v4 192 168 0 30) []) ≡ hosts)
    × (contains (v4 192 168 0 30) hosts ≡ true)
    × (remove (v4 192 168 0 1) hosts ≡ v4 192 168 0 30 ∷ [])
    × (set_text hex hosts ≡ codes "c0a80001,c0a8001e")
    × (ip_addresses hex (codes "c0a8001e,c0a80001,c0a8001e") ≡ some hosts)
unfolding add contains remove set_text ip_addresses hex find
set_test = (refl, refl, refl, refl, refl)

contains_changed_example :
    (contains (v4 192 168 0 30) (add (v4 192 168 0 1) hosts)
      ≡ (equal (v4 192 168 0 30) (v4 192 168 0 1) || contains (v4 192 168 0 30) hosts))
    × (contains (v4 192 168 0 30) (remove (v4 192 168 0 1) hosts)
        ≡ (not (equal (v4 192 168 0 30) (v4 192 168 0 1)) && contains (v4 192 168 0 30) hosts))
contains_changed_example =
    contains_changed (v4 192 168 0 30) (v4 192 168 0 1) hosts neighbour-IsAddress gateway-IsAddress
      (gateway-IsAddress, (neighbour-IsAddress, tt))
