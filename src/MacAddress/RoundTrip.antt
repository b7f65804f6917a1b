-- ===== src/MacAddress/RoundTrip.antt =====
-- Parsing and printing of MAC addresses undo each other, up to the spelling.
use Prim.Native.Nat.{bit_and}
use sonic_swss_common.Prelude.{
  ℕ, ◌/◌, ◌<◌, Bool, true, false, Option, none, some, ◌==◌, nat_eq, ◌≡◌, refl, arith, all_below,
  all_below_sound,
}
use sonic_swss_common.MacAddress.{MacAddress, hex_char, to_string, get_byte, parse_mac_string}

-- Every octet is a byte.
pub record IsMac (m : MacAddress) : Type 0 where
  pub b0 : m.m0 < 256
  pub b1 : m.m1 < 256
  pub b2 : m.m2 < 256
  pub b3 : m.m3 < 256
  pub b4 : m.m4 < 256
  pub b5 : m.m5 < 256

get_byte_is : ℕ → Option ℕ → Bool
get_byte_is b none = false
get_byte_is b (some c) = c == b

get_byte_is_sound : (b : ℕ) (o : Option ℕ) → get_byte_is b o ≡ true → o ≡ some b
unfolding get_byte_is
get_byte_is_sound b none h = ground arith
get_byte_is_sound b (some c) h = ground arith

digits_table :
    all_below 256 (λ b. get_byte_is b (get_byte (hex_char (b / 16)) (hex_char (bit_and b 0x0f))))
    ≡ true
unfolding all_below get_byte_is get_byte hex_char
digits_table = refl

pub get_byte-hex_char :
    (b : ℕ) → b < 256 → get_byte (hex_char (b / 16)) (hex_char (bit_and b 0x0f)) ≡ some b
get_byte-hex_char b h = get_byte_is_sound b _ (
    all_below_sound 256
      (λ b. get_byte_is b (get_byte (hex_char (b / 16)) (hex_char (bit_and b 0x0f)))) b digits_table
      h)

-- Every address is parsed back from its print.
pub parse_mac_string-to_string :
    (m : MacAddress) → IsMac m → parse_mac_string (to_string m) ≡ some m
unfolding parse_mac_string to_string
parse_mac_string-to_string m v = rw (
  get_byte-hex_char m.m0 v.b0,
  get_byte-hex_char m.m1 v.b1,
  get_byte-hex_char m.m2 v.b2,
  get_byte-hex_char m.m3 v.b3,
  get_byte-hex_char m.m4 v.b4,
  get_byte-hex_char m.m5 v.b5,
)
