-- ===== src/MacAddress.antt =====
-- common/macaddress.h and common/macaddress.cpp
pub mod RoundTrip
pub mod Spelling
mod Examples
use Prim.Native.Nat.{bit_and, bit_or}
use sonic_swss_common.Prelude.Maybe.{◌>>=◌}
use sonic_swss_common.Prelude.{
  ℕ, zero, suc, ◌+◌, ◌-◌, ◌*◌, ◌/◌, ◌%◌, Bool, true, false, ◌&&◌, ◌||◌, not, List, [], ◌∷◌, ◌++◌,
  Option, none, some, Bytes, codes, length, ltb, leb, ◌==◌, nat_eq, if◌then◌else◌, ◌≡◌, refl,
}

-- `uint8_t m_mac[ETHER_ADDR_LEN]`
pub record MacAddress : Type 0 where
  pub m0 : ℕ
  pub m1 : ℕ
  pub m2 : ℕ
  pub m3 : ℕ
  pub m4 : ℕ
  pub m5 : ℕ

abbrev pub mac_address_str_length : ℕ
mac_address_str_length = 6 * 2 + 5

-- `char_table[half]`
unfoldable pub hex_char : ℕ → ℕ
hex_char half = if ltb half 10 then b'0' + half else b'a' + (half - 10)

-- Two digits of `to_string`, those of `mac[i] >> 4` and of `mac[i] & 0x0f`.
unfoldable pub put_byte : ℕ → Bytes → Bytes
unfolding hex_char
put_byte b rest = hex_char (b / 16) ∷ hex_char (bit_and b 0x0f) ∷ rest

unfoldable pub to_string : MacAddress → Bytes
unfolding put_byte
to_string m = put_byte m.m0 (
    b':'
    ∷ put_byte m.m1 (
        b':'
        ∷ put_byte m.m2 (b':' ∷ put_byte m.m3 (b':' ∷ put_byte m.m4 (b':' ∷ put_byte m.m5 [])))))

-- The value of a hexadecimal digit, by the three ranges of the `if`s.
unfoldable pub hex_value : ℕ → Option ℕ
hex_value c =
    if leb b'0' c && leb c b'9'
    then some (c - b'0')
    else if leb b'A' c && leb c b'F'
    then some (c - b'A' + 10)
    else if leb b'a' c && leb c b'f'
    then some (c - b'a' + 10)
    else none

-- One round of the loop: `bin_mac[i]` is `left << 4` as a byte, and then `|= right`.
unfoldable pub get_byte : ℕ → ℕ → Option ℕ
unfolding hex_value
get_byte left right = do
  high ← hex_value left
  low ← hex_value right
  some (bit_or (high * 16 % 256) low)

-- The separators are equal to each other, and the first is `:` or `-`.
unfoldable pub separators_ok : ℕ → ℕ → ℕ → ℕ → ℕ → Bool
separators_ok c2 c5 c8 c11 c14 =
    if not (c2 == c5 && c5 == c8 && c8 == c11 && c11 == c14)
    then false
    else if not (c2 == b':') && not (c2 == b'-')
    then false
    else true

-- The text has the length `mac_address_str_length` where the pattern fits; `none` is `false`.
unfoldable pub parse_mac_string : Bytes → Option MacAddress
unfolding separators_ok get_byte
parse_mac_string
      (a0 ∷ a1 ∷ a2 ∷ a3 ∷ a4 ∷ a5 ∷ a6 ∷ a7 ∷ a8 ∷ a9 ∷ a10 ∷ a11 ∷ a12 ∷ a13 ∷ a14 ∷ a15 ∷ a16
        ∷ []) =
    if not (separators_ok a2 a5 a8 a11 a14) then none else do
      m0 ← get_byte a0 a1
      m1 ← get_byte a3 a4
      m2 ← get_byte a6 a7
      m3 ← get_byte a9 a10
      m4 ← get_byte a12 a13
      m5 ← get_byte a15 a16
      some (record { m0 = m0; m1 = m1; m2 = m2; m3 = m3; m4 = m4; m5 = m5 })
parse_mac_string _ = none
