-- ===== src/Ip/Hex.antt =====
-- An arpa/inet.h for the tests, which writes addresses as hexadecimal digits, with a colon in front
-- of those of IPv6.
use Prim.Native.Nat.{bit_and}
use sonic_swss_common.Prelude.Maybe.{◌>>=◌, bind-eq-some}
use sonic_swss_common.Prelude.{
  ℕ, zero, suc, ◌/◌, ◌<◌, ◌≤◌, Bool, true, ◌&&◌, not, [], ◌∷◌, Option, none, some, Bytes, length,
  find, Lacks, All, ltb, ◌==◌, nat_eq, eq_iff, if◌then◌else◌, ◌≡◌, ◌≢◌, inl, inr, refl, subst, ap,
  arith, all_below, Bool-cases, all_below_sound, starts_with,
}
use sonic_swss_common.MacAddress.{hex_char, put_byte, get_byte}
use sonic_swss_common.MacAddress.RoundTrip.{get_byte-hex_char}
use sonic_swss_common.MacAddress.Spelling.{get_byte_sound}
use sonic_swss_common.Ip.{af_inet, af_inet6, IsOctets, HasSize, family_of, Inet}

hex_text : Bytes → Bytes
unfolding put_byte
hex_text [] = []
hex_text (b ∷ bs) = put_byte b (hex_text bs)

parse_hex : ℕ → Bytes → Option Bytes
unfolding get_byte
parse_hex zero [] = some []
parse_hex zero (c ∷ s) = none
parse_hex (suc n) (h ∷ l ∷ s) = get_byte h l >>= λ b. parse_hex n s >>= λ bs. some (b ∷ bs)
parse_hex (suc n) (h ∷ []) = none
parse_hex (suc n) [] = none

parse_size :
    (n : ℕ) (s octets : Bytes) → parse_hex n s ≡ some octets → (length octets ≡ n) × IsOctets octets
unfolding parse_hex
parse_size zero [] octets h =
    let same : [] ≡ octets = cc in subst (λ o. (length o ≡ 0) × IsOctets o) same (refl, tt)
parse_size zero (c ∷ s) octets h = cc
parse_size (suc n) [] octets h = cc
parse_size (suc n) (a ∷ []) octets h = cc
parse_size (suc n) (a ∷ l ∷ s) octets h =
    let (b, e, f) = bind-eq-some (get_byte a l) _ h in
    let (bs, g, last) = bind-eq-some (parse_hex n s) _ f in
    let (small, _, _) = get_byte_sound a l b e in
    let (size, rest) = parse_size n s bs g in
    let same : b ∷ bs ≡ octets = cc in
    subst (λ o. (length o ≡ suc n) × IsOctets o) same (omega arith, (small, rest))

parse_hex-hex_text :
    (octets : Bytes) → IsOctets octets → parse_hex (length octets) (hex_text octets) ≡ some octets
unfolding parse_hex hex_text put_byte
parse_hex-hex_text [] h = refl
parse_hex-hex_text (b ∷ bs) (small, h) =
    rw (get_byte-hex_char b small, parse_hex-hex_text bs h) refl

-- A digit is neither 0 nor `/` nor a colon.
abbrev IsHexDigit : ℕ → Type 0
IsHexDigit c = (b'/' < c) × (c ≢ b':')

digits_ok : ℕ → Bool
unfolding hex_char
digits_ok b =
    ltb b'/' (hex_char (b / 16))
    && not (hex_char (b / 16) == b':')
    && ltb b'/' (hex_char (bit_and b 0x0f))
    && not (hex_char (bit_and b 0x0f) == b':')

digits_table : all_below 256 digits_ok ≡ true
unfolding all_below digits_ok
digits_table = refl

tests_sound :
    (x y : ℕ)
    → (ltb b'/' x && not (x == b':') && ltb b'/' y && not (y == b':')) ≡ true
    → IsHexDigit x × IsHexDigit y
tests_sound x y h = ground arith

digits_sound :
    (b : ℕ) → b < 256 → IsHexDigit (hex_char (b / 16)) × IsHexDigit (hex_char (bit_and b 0x0f))
unfolding digits_ok
digits_sound b h =
    let ok = all_below_sound 256 digits_ok b digits_table h in
    tests_sound (hex_char (b / 16)) (hex_char (bit_and b 0x0f)) ok

hex_text_digits : (octets : Bytes) → IsOctets octets → All IsHexDigit (hex_text octets)
unfolding hex_text put_byte
hex_text_digits [] h = tt
hex_text_digits (b ∷ bs) (small, h) =
    let (high, low) = digits_sound b small in (high, (low, hex_text_digits bs h))

digits_lack : (b : ℕ) (s : Bytes) → b ≤ b'/' → All IsHexDigit s → Lacks b s
digits_lack b [] h d = tt
digits_lack b (c ∷ s) h ((large, _), d) = (λ e. absurd (omega arith), digits_lack b s h d)

no_colon : (s : Bytes) → All IsHexDigit s → find (b':' ∷ []) s ≡ none
unfolding find starts_with
no_colon [] d = refl
no_colon (c ∷ s) ((_, other), d) = ground (arith, no_colon s d, eq_iff c b':')

unfoldable pub hex_ntop : ℕ → Bytes → Bytes
unfolding hex_text
hex_ntop family octets = if family == af_inet6 then b':' ∷ hex_text octets else hex_text octets

behind_colon : Bytes → Option Bytes
unfolding parse_hex
behind_colon [] = none
behind_colon (c ∷ s) = if c == b':' then parse_hex 16 s else none

unfoldable pub hex_pton : ℕ → Bytes → Option Bytes
unfolding parse_hex behind_colon
hex_pton family s =
    if family == af_inet6 then behind_colon s else if family == af_inet then parse_hex 4 s else none

behind_colon_size :
    (s octets : Bytes) → behind_colon s ≡ some octets → (length octets ≡ 16) × IsOctets octets
unfolding behind_colon
behind_colon_size [] octets h = cc
behind_colon_size (c ∷ s) octets h = elim (Bool-cases (c == b':')) [
  | inl colon ↦ parse_size 16 s octets (rw colon at h)
  | inr other ↦ let h' = rw other at h in cc
]

pub hex_pton_size :
    (family : ℕ) (s octets : Bytes)
    → hex_pton family s ≡ some octets
    → HasSize family (length octets) × IsOctets octets
unfolding hex_pton
hex_pton_size family s octets h = elim (Bool-cases (family == af_inet6)) [
  | inl six ↦
      let (size, small) = behind_colon_size s octets (rw six at h) in
      (inr ((eq_iff family af_inet6).0 six, size), small)
  | inr other ↦ elim (Bool-cases (family == af_inet)) [
    | inl four ↦
        let (size, small) = parse_size 4 s octets (rw (other, four) at h) in
        (inl ((eq_iff family af_inet).0 four, size), small)
    | inr neither ↦ let h' = rw (other, neither) at h in cc
  ]
]

pub hex_pton-hex_ntop :
    (family : ℕ) (octets : Bytes)
    → HasSize family (length octets)
    → IsOctets octets
    → hex_pton family (hex_ntop family octets) ≡ some octets
unfolding hex_pton hex_ntop behind_colon
hex_pton-hex_ntop family octets (inl (four, size)) h =
    rw four (rw size at (parse_hex-hex_text octets h))
hex_pton-hex_ntop family octets (inr (six, size)) h =
    rw six (rw size at (parse_hex-hex_text octets h))

long_text : (octets : Bytes) → 0 < length octets → 0 < length (hex_text octets)
unfolding hex_text put_byte
long_text [] h = absurd (omega arith)
long_text (b ∷ bs) h = omega arith

pub hex_ntop_text :
    (family : ℕ) (octets : Bytes)
    → HasSize family (length octets)
    → IsOctets octets
    → (0 < length (hex_ntop family octets))
      × Lacks 0 (hex_ntop family octets)
      × Lacks b'/' (hex_ntop family octets)
unfolding hex_ntop
hex_ntop_text family octets (inl (four, size)) h =
    let digits = hex_text_digits octets h in
    let lacks0 = digits_lack 0 (hex_text octets) (omega arith) digits in
    let lacks = digits_lack b'/' (hex_text octets) (omega arith) digits in
    rw four (long_text octets (omega arith), lacks0, lacks)
hex_ntop_text family octets (inr (six, size)) h =
    let digits = hex_text_digits octets h in
    let lacks0 = digits_lack 0 (hex_text octets) (omega arith) digits in
    let lacks = digits_lack b'/' (hex_text octets) (omega arith) digits in
    rw six (omega arith, (λ e. absurd (omega arith), lacks0), (λ e. absurd (omega arith), lacks))

no_colon_family : (s : Bytes) → find (b':' ∷ []) s ≡ none → family_of s ≡ af_inet
unfolding family_of
no_colon_family s h = ap (λ o. elim o as (λ _. ℕ) [ none ↦ af_inet | some at ↦ af_inet6 ]) h

pub hex_ntop_colon :
    (family : ℕ) (octets : Bytes)
    → HasSize family (length octets)
    → IsOctets octets
    → family_of (hex_ntop family octets) ≡ family
unfolding hex_ntop family_of find starts_with
hex_ntop_colon family octets (inl (four, size)) h =
    let none_found = no_colon (hex_text octets) (hex_text_digits octets h) in
    rw four (no_colon_family (hex_text octets) none_found)
hex_ntop_colon family octets (inr (six, size)) h = rw six refl

unfoldable pub hex : Inet
unfolding hex_pton hex_ntop
hex = record {
  pton = hex_pton;
  ntop = hex_ntop;
  pton_size = hex_pton_size;
  pton-ntop = hex_pton-hex_ntop;
  ntop_text = hex_ntop_text;
  ntop_colon = hex_ntop_colon;
}
