-- ===== src/MacAddress/Spelling.antt =====
-- What the parser accepts, and how the print of the result relates to the text.
use Prim.Native.Nat.{bit_and, bit_or}
use sonic_swss_common.Prelude.Maybe.{◌>>=◌}
use sonic_swss_common.Prelude.{
  ℕ, ◌+◌, ◌*◌, ◌/◌, ◌%◌, ◌<◌, Bool, true, ◌&&◌, [], ◌∷◌, Option, none, some, map, Bytes, length,
  ltb, leb, ◌==◌, nat_eq, if◌then◌else◌, ◌≡◌, refl, arith, all_below, all_below_sound, Option-cases,
  Bool-cases, inl, inr,
}
use sonic_swss_common.MacAddress.{
  MacAddress, hex_char, to_string, hex_value, get_byte, separators_ok, parse_mac_string,
}
use sonic_swss_common.MacAddress.RoundTrip.{IsMac}

-- The spelling that `to_string` uses: colons, and small letters.
unfoldable pub normal : ℕ → ℕ
normal c = if c == b'-' then b':' else if leb b'A' c && leb c b'F' then c + 32 else c

hex_value_sound : (c v : ℕ) → hex_value c ≡ some v → (v < 16) × (hex_char v ≡ normal c)
unfolding hex_value hex_char normal
hex_value_sound c v h = ground arith

nibbles_ok : ℕ → Bool
nibbles_ok b =
    let x = bit_or (b / 16 * 16 % 256) (b % 16) in
    ltb x 256 && x / 16 == b / 16 && bit_and x 0x0f == b % 16

nibbles_table : all_below 256 nibbles_ok ≡ true
unfolding all_below nibbles_ok
nibbles_table = refl

join_nibbles :
    (h l : ℕ)
    → h < 16
    → l < 16
    → (bit_or (h * 16 % 256) l < 256)
      × (bit_or (h * 16 % 256) l / 16 ≡ h)
      × (bit_and (bit_or (h * 16 % 256) l) 0x0f ≡ l)
unfolding nibbles_ok
join_nibbles h l p q =
    let b = h * 16 + l in
    let ok = all_below_sound 256 nibbles_ok b nibbles_table (omega arith) in
    let hi : b / 16 ≡ h = omega arith in
    let lo : b % 16 ≡ l = omega arith in let ok' = rw (hi, lo) at ok in ground arith

join_nibbles_sound :
    (a b x y : ℕ)
    → hex_value a ≡ some x
    → hex_value b ≡ some y
    → (bit_or (x * 16 % 256) y < 256)
      × (hex_char (bit_or (x * 16 % 256) y / 16) ≡ normal a)
      × (hex_char (bit_and (bit_or (x * 16 % 256) y) 0x0f) ≡ normal b)
join_nibbles_sound a b x y ex ey =
    let (x16, nx) = hex_value_sound a x ex in
    let (y16, ny) = hex_value_sound b y ey in
    let (small, high, low) = join_nibbles x y x16 y16 in (small, rw high nx, rw low ny)

pub get_byte_sound :
    (a b m : ℕ)
    → get_byte a b ≡ some m
    → (m < 256) × (hex_char (m / 16) ≡ normal a) × (hex_char (bit_and m 0x0f) ≡ normal b)
get_byte_sound a b m h = elim (Option-cases (hex_value a)) [
  | inl e ↦ unfold get_byte in ground arith
  | inr (x, ex) ↦ elim (Option-cases (hex_value b)) [
    | inl e ↦ unfold get_byte in ground arith
    | inr (y, ey) ↦
        let e : bit_or (x * 16 % 256) y ≡ m = unfold get_byte in ground arith in
        rw e at (join_nibbles_sound a b x y ex ey)
  ]
]

separators_normal :
    (c2 c5 c8 c11 c14 : ℕ)
    → separators_ok c2 c5 c8 c11 c14 ≡ true
    → (normal c2 ≡ b':')
      × (normal c5 ≡ b':')
      × (normal c8 ≡ b':')
      × (normal c11 ≡ b':')
      × (normal c14 ≡ b':')
unfolding separators_ok normal
separators_normal c2 c5 c8 c11 c14 h = ground arith

abbrev six_octets :
    Option ℕ → Option ℕ → Option ℕ → Option ℕ → Option ℕ → Option ℕ → Option MacAddress
six_octets o0 o1 o2 o3 o4 o5 = do
  m0 ← o0
  m1 ← o1
  m2 ← o2
  m3 ← o3
  m4 ← o4
  m5 ← o5
  some (record { m0 = m0; m1 = m1; m2 = m2; m3 = m3; m4 = m4; m5 = m5 })

six_parts :
    (o0 o1 o2 o3 o4 o5 : Option ℕ) (m : MacAddress)
    → six_octets o0 o1 o2 o3 o4 o5 ≡ some m
    → (o0 ≡ some m.m0)
      × (o1 ≡ some m.m1)
      × (o2 ≡ some m.m2)
      × (o3 ≡ some m.m3)
      × (o4 ≡ some m.m4)
      × (o5 ≡ some m.m5)
six_parts (some x0) (some x1) (some x2) (some x3) (some x4) (some x5) m h = ground arith
six_parts _ _ _ _ _ _ m h = cc

module _ (a0 a1 a2 a3 a4 a5 a6 a7 a8 a9 a10 a11 a12 a13 a14 a15 a16 : ℕ) where
  abbrev text : Bytes
  text =
      a0 ∷ a1 ∷ a2 ∷ a3 ∷ a4 ∷ a5 ∷ a6 ∷ a7 ∷ a8 ∷ a9 ∷ a10 ∷ a11 ∷ a12 ∷ a13 ∷ a14 ∷ a15 ∷ a16 ∷ []

  accepted_parts :
      (m : MacAddress)
      → parse_mac_string text ≡ some m
      → (separators_ok a2 a5 a8 a11 a14 ≡ true)
        × ((get_byte a0 a1 ≡ some m.m0)
            × (get_byte a3 a4 ≡ some m.m1)
            × (get_byte a6 a7 ≡ some m.m2)
            × (get_byte a9 a10 ≡ some m.m3)
            × (get_byte a12 a13 ≡ some m.m4)
            × (get_byte a15 a16 ≡ some m.m5))
  unfolding parse_mac_string
  accepted_parts m h = elim (Bool-cases (separators_ok a2 a5 a8 a11 a14)) [
    | inr bad ↦ let h' : none ≡ some m = rw bad at h in cc
    | inl sep ↦ (
      sep,
      six_parts (get_byte a0 a1) (get_byte a3 a4) (get_byte a6 a7) (get_byte a9 a10)
          (get_byte a12 a13) (get_byte a15 a16) m (rw sep at h),
    )
  ]

  accepted_sound :
      (m : MacAddress) → parse_mac_string text ≡ some m → IsMac m × (to_string m ≡ map normal text)
  unfolding to_string
  accepted_sound m h =
      let (sep, parts) = accepted_parts m h in
      let (e0, e1, e2, e3, e4, e5) = parts in
      let (s0, s1, s2, s3, s4) = separators_normal a2 a5 a8 a11 a14 sep in
      let (b0, p0, q0) = get_byte_sound a0 a1 m.m0 e0 in
      let (b1, p1, q1) = get_byte_sound a3 a4 m.m1 e1 in
      let (b2, p2, q2) = get_byte_sound a6 a7 m.m2 e2 in
      let (b3, p3, q3) = get_byte_sound a9 a10 m.m3 e3 in
      let (b4, p4, q4) = get_byte_sound a12 a13 m.m4 e4 in
      let (b5, p5, q5) = get_byte_sound a15 a16 m.m5 e5 in
      (record { b0 = b0; b1 = b1; b2 = b2; b3 = b3; b4 = b4; b5 = b5 }, cc)

-- A text that is accepted has 17 characters, its octets are bytes, and it is the print of the
-- result with other separators and other letters at most: with `-` read as `:` and capitals as small
-- letters it is the print.
pub parse_mac_string_sound :
    (s : Bytes) (m : MacAddress)
    → parse_mac_string s ≡ some m
    → (length s ≡ 17) × (IsMac m × (to_string m ≡ map normal s))
unfolding parse_mac_string
parse_mac_string_sound
      (a0 ∷ a1 ∷ a2 ∷ a3 ∷ a4 ∷ a5 ∷ a6 ∷ a7 ∷ a8 ∷ a9 ∷ a10 ∷ a11 ∷ a12 ∷ a13 ∷ a14 ∷ a15 ∷ a16
        ∷ [])
      m h =
    (refl, accepted_sound a0 a1 a2 a3 a4 a5 a6 a7 a8 a9 a10 a11 a12 a13 a14 a15 a16 m h)
parse_mac_string_sound _ m h = cc
