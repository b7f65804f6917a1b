-- ===== src/Ip.antt =====
-- common/ipaddress.h and common/ipaddress.cpp: addresses, by their octets in memory.
pub mod Prefix
pub mod Addresses
mod Hex
mod Examples
use sonic_swss_common.Prelude.Maybe.{◌>>=◌}
use sonic_swss_common.Prelude.{
  ℕ, ◌+◌, ◌*◌, ◌<◌, ◌≡◌, ◌⊎◌, Bool, true, false, ◌&&◌, ◌||◌, not, List, [], ◌∷◌, Option, none, some,
  Bytes, codes, length, replicate, find, Lacks, All, ltb, ◌==◌, nat_eq, bytes_eq, if◌then◌else◌,
}

abbrev pub af_inet : ℕ
af_inet = 2

abbrev pub af_inet6 : ℕ
af_inet6 = 10

-- `ip_addr_t`: the family, and the octets of the union's member that the family names, in the order
-- in which they stand in memory (4 of `ipv4_addr`, which is in network order, or 16 of `ipv6_addr`).
pub record IpAddress : Type 0 where
  pub family : ℕ
  pub octets : Bytes

abbrev pub IsOctets : Bytes → Type 0
IsOctets = All (λ b. b < 256)

abbrev pub HasSize : ℕ → ℕ → Type 0
HasSize family size = ((family ≡ af_inet) × (size ≡ 4)) ⊎ ((family ≡ af_inet6) × (size ≡ 16))

-- What an address of one of the two families is.
pub record IsAddress (a : IpAddress) : Type 0 where
  pub has_size : HasSize a.family (length a.octets)
  pub are_octets : IsOctets a.octets

-- The family that the constructor takes a text for: IPv6 where there is a colon.
unfoldable pub family_of : Bytes → ℕ
family_of s = elim (find (b':' ∷ []) s) [ none ↦ af_inet | some at ↦ af_inet6 ]

-- `inet_pton`, with the octets that it writes where it returns 1, and `inet_ntop`, of arpa/inet.h,
-- which is not part of the repository.
pub record Inet : Type 0 where
  pub pton : ℕ → Bytes → Option Bytes
  pub ntop : ℕ → Bytes → Bytes
  pub pton_size :
      (family : ℕ) (s octets : Bytes)
      → pton family s ≡ some octets
      → HasSize family (length octets) × IsOctets octets
  pub pton-ntop :
      (family : ℕ) (octets : Bytes)
      → HasSize family (length octets)
      → IsOctets octets
      → pton family (ntop family octets) ≡ some octets
  -- The texts are not empty and have digits, dots and colons only, and just those of IPv6 a colon.
  pub ntop_text :
      (family : ℕ) (octets : Bytes)
      → HasSize family (length octets)
      → IsOctets octets
      → (0 < length (ntop family octets))
        × Lacks 0 (ntop family octets)
        × Lacks b'/' (ntop family octets)
  pub ntop_colon :
      (family : ℕ) (octets : Bytes)
      → HasSize family (length octets)
      → IsOctets octets
      → family_of (ntop family octets) ≡ family

unfoldable pub is_v4 : IpAddress → Bool
is_v4 a = a.family == af_inet

unfoldable pub is_zero : IpAddress → Bool
is_zero a =
    (a.family == af_inet && a.octets == replicate 4 0)
    || (a.family == af_inet6 && a.octets == replicate 16 0)

-- The number that a little-endian machine reads from octets.
unfoldable pub word : Bytes → ℕ
word [] = 0
word (b ∷ bs) = b + 256 * word bs

-- `memcmp(..) < 0`
unfoldable pub memcmp_less : Bytes → Bytes → Bool
memcmp_less [] _ = false
memcmp_less (b ∷ bs) [] = false
memcmp_less (b ∷ bs) (c ∷ cs) = let rest = memcmp_less bs cs in if b == c then rest else ltb b c

-- `operator<`
unfoldable pub less : IpAddress → IpAddress → Bool
unfolding word memcmp_less
less a o =
    if not (a.family == o.family)
    then ltb a.family o.family
    else if a.family == af_inet
    then ltb (word a.octets) (word o.octets)
    else memcmp_less a.octets o.octets

-- `operator==`
unfoldable pub equal : IpAddress → IpAddress → Bool
equal a o =
    a.family == o.family
    && ((a.family == af_inet && a.octets == o.octets)
        || (a.family == af_inet6 && a.octets == o.octets))

-- What C reads of a `std::string`: the bytes in front of the first 0.
unfoldable pub c_str : Bytes → Bytes
c_str [] = []
c_str (c ∷ s) = if c == 0 then [] else c ∷ c_str s

module _ (inet : Inet) where
  -- `IpAddress(const std::string &)`; `none` is `std::invalid_argument`.
  unfoldable pub ip_address : Bytes → Option IpAddress
  unfolding family_of c_str
  ip_address s = inet.pton (family_of s) (c_str s) >>= λ octets.
      some (record { family = family_of s; octets = octets })

  unfoldable pub to_string : IpAddress → Bytes
  to_string a = inet.ntop a.family a.octets
