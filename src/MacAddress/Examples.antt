-- ===== src/MacAddress/Examples.antt =====
-- Tests of MAC addresses, and their theorems at concrete inputs.
use sonic_swss_common.Prelude.{◌≡◌, refl, none, some, map, codes, arith, length}
use sonic_swss_common.MacAddress.{MacAddress, to_string, parse_mac_string}
use sonic_swss_common.MacAddress.RoundTrip.{IsMac, parse_mac_string-to_string}
use sonic_swss_common.MacAddress.Spelling.{normal, parse_mac_string_sound}

abbrev mac : MacAddress
mac = record { m0 = 0; m1 = 17; m2 = 171; m3 = 255; m4 = 9; m5 = 160 }

mac-IsMac : IsMac mac
mac-IsMac = omega arith

print_test : to_string mac ≡ codes "00:11:ab:ff:09:a0"
unfolding to_string
print_test = refl

mixed_separators : parse_mac_string (codes "00:11-ab:ff:09:a0") ≡ none
unfolding parse_mac_string
mixed_separators = refl

capitals : parse_mac_string (codes "00-11-AB-FF-09-A0") ≡ some mac
unfolding parse_mac_string
capitals = refl

parse_mac_string-to_string_example : parse_mac_string (to_string mac) ≡ some mac
parse_mac_string-to_string_example = parse_mac_string-to_string mac mac-IsMac

parse_mac_string_sound_example :
    (length (codes "00-11-AB-FF-09-A0") ≡ 17)
    × (IsMac mac × (to_string mac ≡ map normal (codes "00-11-AB-FF-09-A0")))
parse_mac_string_sound_example = parse_mac_string_sound (codes "00-11-AB-FF-09-A0") mac capitals
