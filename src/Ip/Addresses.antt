-- ===== src/Ip/Addresses.antt =====
-- common/ipaddresses.h and common/ipaddresses.cpp: sets of addresses.
pub mod Order
pub mod Members
use sonic_swss_common.Prelude.Maybe.{◌>>=◌}
use sonic_swss_common.Prelude.{
  Bool, true, false, ◌&&◌, ◌||◌, not, List, [], ◌∷◌, ◌++◌, Option, none, some, Bytes, if◌then◌else◌,
}
use sonic_swss_common.Tokenize.{tokenize}
use sonic_swss_common.Ip.{IpAddress, Inet, less, ip_address, to_string}

-- What a `std::set` takes for the same element.
unfoldable pub equivalent : IpAddress → IpAddress → Bool
unfolding less
equivalent a o = not (less a o) && not (less o a)

-- `insert` of the set, which is the list of its elements in their order
unfoldable pub add : IpAddress → List IpAddress → List IpAddress
unfolding less
add ip [] = ip ∷ []
add ip (o ∷ ips) =
    let rest = add ip ips in
    if less ip o then ip ∷ o ∷ ips else if less o ip then o ∷ rest else o ∷ ips

-- `find(ip) != end()`
unfoldable pub contains : IpAddress → List IpAddress → Bool
unfolding equivalent
contains ip [] = false
contains ip (o ∷ ips) = let rest = contains ip ips in if equivalent ip o then true else rest

-- `contains` of another set
unfoldable pub contains_all : List IpAddress → List IpAddress → Bool
unfolding contains
contains_all [] ips = true
contains_all (o ∷ os) ips =
    let rest = contains_all os ips in if not (contains o ips) then false else rest

unfoldable pub remove : IpAddress → List IpAddress → List IpAddress
unfolding equivalent
remove ip [] = []
remove ip (o ∷ ips) = let rest = remove ip ips in if equivalent ip o then rest else o ∷ rest

module _ (inet : Inet) where
  unfoldable pub add_each : List Bytes → List IpAddress → Option (List IpAddress)
  unfolding add ip_address
  add_each [] ips = some ips
  add_each (s ∷ texts) ips = ip_address inet s >>= λ ip. add_each texts (add ip ips)

  -- `IpAddresses(const string &)`; `none` is `std::invalid_argument`, here and below.
  unfoldable pub ip_addresses : Bytes → Option (List IpAddress)
  unfolding tokenize add_each
  ip_addresses s = add_each (tokenize s b',') []

  unfoldable pub add_text : Bytes → List IpAddress → Option (List IpAddress)
  unfolding add ip_address
  add_text s ips = ip_address inet s >>= λ ip. some (add ip ips)

  unfoldable pub contains_text : Bytes → List IpAddress → Option Bool
  unfolding contains ip_address
  contains_text s ips = ip_address inet s >>= λ ip. some (contains ip ips)

  unfoldable pub remove_text : Bytes → List IpAddress → Option (List IpAddress)
  unfolding remove ip_address
  remove_text s ips = ip_address inet s >>= λ ip. some (remove ip ips)

  -- The elements behind the first, each with a comma in front
  unfoldable pub more_text : List IpAddress → Bytes
  unfolding to_string
  more_text [] = []
  more_text (ip ∷ ips) = b',' ∷ to_string inet ip ++ more_text ips

  unfoldable pub set_text : List IpAddress → Bytes
  unfolding to_string more_text
  set_text [] = []
  set_text (ip ∷ ips) = to_string inet ip ++ more_text ips
