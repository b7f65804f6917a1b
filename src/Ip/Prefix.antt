-- ===== src/Ip/Prefix.antt =====
-- common/ipprefix.h and common/ipprefix.cpp: an address with the length of its prefix.
pub mod Bits
pub mod Filled
pub mod Masks
pub mod RoundTrip
pub mod Membership
pub mod Subnet
use Prim.Native.Nat.{bit_and, bit_or}
use sonic_swss_common.Prelude.Maybe.{◌>>=◌}
use sonic_swss_common.Prelude.{
  ℕ, zero, suc, ◌+◌, ◌-◌, ◌*◌, ◌/◌, ◌%◌, ◌^◌, ◌≤◌, Bool, true, false, ◌&&◌, not, List, [], ◌∷◌,
  ◌++◌, Option, none, some, Bytes, length, take, drop, replicate, find, ltb, leb, ◌==◌, nat_eq,
  bytes_eq, if◌then◌else◌,
}
use sonic_swss_common.Decimal
use sonic_swss_common.Decimal.{ℤ, pos, negsuc, stoi}
use sonic_swss_common.Ip
use sonic_swss_common.Ip.{af_inet, af_inet6, IpAddress, IsAddress, Inet, is_v4, ip_address}

-- Every constructor refuses a negative mask, so that a prefix holds a number.
pub record IpPrefix : Type 0 where
  pub ip : IpAddress
  pub mask : ℕ

pub record IsPrefix (p : IpPrefix) : Type 0 where
  pub is_address : IsAddress p.ip
  pub in_width : p.mask ≤ 8 * length p.ip.octets

-- `isValid`
unfoldable pub is_valid : IpAddress → ℤ → Bool
is_valid ip (negsuc n) = false
is_valid ip (pos m) =
    if ip.family == af_inet then leb m 32 else if ip.family == af_inet6 then leb m 128 else false

-- The two constructors that take a mask; `none` is `std::invalid_argument`.
unfoldable pub make : IpAddress → ℤ → Option IpPrefix
unfolding is_valid
make ip (negsuc n) = none
make ip (pos m) = if is_valid ip (pos m) then some (record { ip = ip; mask = m }) else none

-- The octets in memory of `htonl(n)`
unfoldable pub htonl : ℕ → Bytes
htonl n = n / 2 ^ 24 ∷ n / 2 ^ 16 % 256 ∷ n / 2 ^ 8 % 256 ∷ n % 256 ∷ []

unfoldable pub mask4 : ℕ → Bytes
unfolding htonl
mask4 m = htonl (0xFFFFFFFF * 2 ^ (32 - m) % 2 ^ 32)

unfoldable pub mask6 : ℕ → Bytes
mask6 m =
    let mid = m / 8 in
    let bits = bit_and m 7 in
    replicate mid 255
    ++ (if ltb mid 16 then 255 * 2 ^ (8 - bits) % 256 ∷ replicate (16 - mid - 1) 0 else [])

-- `none` is the exception `std::logic_error` of another family, here and below.
unfoldable pub get_mask : IpPrefix → Option IpAddress
unfolding mask4 mask6
get_mask p =
    if p.ip.family == af_inet
    then some (record { family = af_inet; octets = mask4 p.mask })
    else if p.ip.family == af_inet6
    then some (record { family = af_inet6; octets = mask6 p.mask })
    else none

-- `&=` octet by octet
unfoldable pub and_octets : Bytes → Bytes → Bytes
and_octets (b ∷ bs) (m ∷ ms) = bit_and b m ∷ and_octets bs ms
and_octets _ _ = []

-- `(uint8_t)(prefix[i] | ~mask[i])`, octet by octet
unfoldable pub or_not_octets : Bytes → Bytes → Bytes
or_not_octets (b ∷ bs) (m ∷ ms) = bit_or b (255 - m) ∷ or_not_octets bs ms
or_not_octets _ _ = []

unfoldable pub get_broadcast_ip : IpPrefix → Option IpAddress
unfolding get_mask or_not_octets
get_broadcast_ip p = get_mask p >>= λ mask.
    some (record { family = p.ip.family; octets = or_not_octets p.ip.octets mask.octets })

unfoldable pub is_default_route : IpPrefix → Bool
is_default_route p = p.mask == 0

unfoldable pub is_full_mask : IpPrefix → Bool
unfolding is_v4
is_full_mask p = if is_v4 p.ip then p.mask == 32 else p.mask == 128

-- The loop over the octets of IPv6.
unfoldable pub same_masked : Bytes → Bytes → Bytes → Bool
same_masked (b ∷ bs) (m ∷ ms) (c ∷ cs) =
    let rest = same_masked bs ms cs in if not (bit_and b m == bit_and c m) then false else rest
same_masked _ _ _ = true

unfoldable pub is_address_in_subnet : IpPrefix → IpAddress → Option Bool
unfolding get_mask and_octets same_masked
is_address_in_subnet p a =
    if not (p.ip.family == a.family)
    then some false
    else get_mask p >>= λ mask.
        if p.ip.family == af_inet
        then some (and_octets p.ip.octets mask.octets == and_octets a.octets mask.octets)
        else some (same_masked p.ip.octets mask.octets a.octets)

-- `operator<`
unfoldable pub less : IpPrefix → IpPrefix → Bool
unfolding Ip.less
less p o = if not (p.mask == o.mask) then ltb p.mask o.mask else Ip.less p.ip o.ip

-- `operator==`
unfoldable pub equal : IpPrefix → IpPrefix → Bool
unfolding Ip.equal
equal p o = Ip.equal p.ip o.ip && p.mask == o.mask

module _ (inet : Inet) where
  unfoldable pub to_string : IpPrefix → Bytes
  unfolding Ip.to_string
  to_string p = Ip.to_string inet p.ip ++ b'/' ∷ Decimal.to_string p.mask

  -- The address in front of `/`: an empty text is that of `IpAddress(0)`.
  unfoldable pub address_part : Bytes → Option IpAddress
  unfolding ip_address
  address_part [] = some (record { family = af_inet; octets = replicate 4 0 })
  address_part (c ∷ s) = ip_address inet (c ∷ s)

  -- The text split at the position of `/`, if it has one.
  unfoldable pub split_prefix : Bytes → Option ℕ → Option IpPrefix
  unfolding address_part is_v4 make
  split_prefix s none =
      address_part s >>= λ ip. some (record { ip = ip; mask = if is_v4 ip then 32 else 128 })
  split_prefix s (some at) =
      address_part (take at s) >>= λ ip. stoi (drop (suc at) s) >>= λ mask. make ip mask

  -- `IpPrefix(const std::string &)`; `none` is `std::invalid_argument`.
  unfoldable pub ip_prefix : Bytes → Option IpPrefix
  unfolding split_prefix
  ip_prefix s = split_prefix s (find (b'/' ∷ []) s)

  -- The prefix of the octets that the mask leaves; IPv6 writes them as text, and parses it.
  unfoldable pub subnet_of : IpPrefix → Bytes → Option IpPrefix
  unfolding make ip_prefix
  subnet_of p octets =
      if p.ip.family == af_inet
      then make (record { family = af_inet; octets = octets }) (pos p.mask)
      else ip_prefix (inet.ntop af_inet6 octets ++ b'/' ∷ Decimal.to_string p.mask)

  unfoldable pub get_subnet : IpPrefix → Option IpPrefix
  unfolding get_mask and_octets subnet_of
  get_subnet p = get_mask p >>= λ mask. subnet_of p (and_octets p.ip.octets mask.octets)
