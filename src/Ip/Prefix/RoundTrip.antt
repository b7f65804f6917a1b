-- ===== src/Ip/Prefix/RoundTrip.antt =====
-- Parsing and printing of addresses and prefixes, and what the constructors accept.
use sonic_swss_common.Prelude.Maybe.{bind-eq-some}
use sonic_swss_common.Prelude.{
  ℕ, suc, ◌*◌, ◌^◌, ◌≤◌, ◌<◌, true, List, [], ◌∷◌, ◌++◌, Option, none, some, Bytes, length, take,
  drop, replicate, take-append, find, find-append, Lacks, nat_eq, eq_iff, if◌then◌else◌, ◌≡◌, inl,
  inr, refl, subst, Bool-cases, ap, ◌∙◌, arith,
}
use sonic_swss_common.Decimal
use sonic_swss_common.Decimal.{pos, negsuc, stoi}
use sonic_swss_common.Decimal.RoundTrip.{stoi-to_string}
use sonic_swss_common.Ip
use sonic_swss_common.Ip.{
  af_inet, af_inet6, IpAddress, IsAddress, HasSize, Inet, family_of, c_str, ip_address, is_v4,
}
use sonic_swss_common.Ip.Prefix.{
  IpPrefix, IsPrefix, is_valid, make, to_string, address_part, split_prefix, ip_prefix,
}

c_str_lem : (s : Bytes) → Lacks 0 s → c_str s ≡ s
unfolding c_str
c_str_lem [] h = refl
c_str_lem (c ∷ s) (nonzero, h) = ground (arith, c_str_lem s h, eq_iff c 0)

drop_past {ℓ} : {A : Type ℓ} (xs ys : List A) (x : A) → drop (suc (length xs)) (xs ++ x ∷ ys) ≡ ys
drop_past [] ys x = refl
drop_past (y ∷ xs) ys x = drop_past xs ys x

is_valid_lem : (p : IpPrefix) → IsPrefix p → is_valid p.ip (pos p.mask) ≡ true
unfolding is_valid
is_valid_lem p v = elim v.is_address.has_size [
  | inl (family, size) ↦ let h = v.in_width in ground arith
  | inr (family, size) ↦ let h = v.in_width in ground arith
]

pub make_lem : (p : IpPrefix) → IsPrefix p → make p.ip (pos p.mask) ≡ some p
unfolding make
make_lem p v = rw (is_valid_lem p v) refl

module _ (inet : Inet) where
  -- An address is read back from its text.
  pub ip_address-to_string :
      (a : IpAddress) → IsAddress a → ip_address inet (Ip.to_string inet a) ≡ some a
  unfolding ip_address Ip.to_string
  ip_address-to_string a v =
      let (_, nonzero, _) = inet.ntop_text a.family a.octets v.has_size v.are_octets in
      let family = inet.ntop_colon a.family a.octets v.has_size v.are_octets in
      let whole = c_str_lem (inet.ntop a.family a.octets) nonzero in
      let back = inet.pton-ntop a.family a.octets v.has_size v.are_octets in
      rw (family, whole, back) refl

  address_part_lem : (s : Bytes) → 0 < length s → address_part inet s ≡ ip_address inet s
  unfolding address_part
  address_part_lem [] h = absurd (omega arith)
  address_part_lem (c ∷ s) h = refl

  ip_prefix_parts :
      (t digits : Bytes) (p : IpPrefix)
      → Lacks b'/' t
      → address_part inet t ≡ some p.ip
      → stoi digits ≡ some (pos p.mask)
      → IsPrefix p
      → ip_prefix inet (t ++ b'/' ∷ digits) ≡ some p
  unfolding ip_prefix split_prefix
  ip_prefix_parts t digits p lacks address mask v =
      ap (split_prefix inet (t ++ b'/' ∷ digits)) (find-append b'/' t digits lacks)
      ∙ (rw (take-append t (b'/' ∷ digits), address, drop_past t digits b'/', mask) (make_lem p v))

  in_int : (p : IpPrefix) → IsPrefix p → p.mask < 2 ^ 31
  in_int p v =
      let h = v.in_width in
      elim v.is_address.has_size [
        | inl (family, size) ↦ omega arith
        | inr (family, size) ↦ omega arith
      ]

  -- A prefix is read back from its text.
  pub ip_prefix-to_string : (p : IpPrefix) → IsPrefix p → ip_prefix inet (to_string inet p) ≡ some p
  unfolding to_string Ip.to_string
  ip_prefix-to_string p v =
      let a = v.is_address in
      let (long, _, lacks) = inet.ntop_text p.ip.family p.ip.octets a.has_size a.are_octets in
      let address = ip_address-to_string p.ip a in
      ip_prefix_parts (Ip.to_string inet p.ip) (Decimal.to_string p.mask) p lacks
        (address_part_lem (Ip.to_string inet p.ip) long ∙ address)
        (stoi-to_string p.mask (in_int p v)) v

module _ (a : IpAddress) (v : IsAddress a) where
  valid_width : (m : ℕ) → is_valid a (pos m) ≡ true → m ≤ 8 * length a.octets
  unfolding is_valid
  valid_width m h = elim v.has_size [
    | inl (family, size) ↦ ground arith
    | inr (family, size) ↦ ground arith
  ]

  -- What the constructors with a mask accept is a prefix.
  pub make-IsPrefix : (mask : Decimal.ℤ) (p : IpPrefix) → make a mask ≡ some p → IsPrefix p
  unfolding make
  make-IsPrefix (negsuc m) p h = cc
  make-IsPrefix (pos m) p h = elim (Bool-cases (is_valid a (pos m))) [
    | inl valid ↦
        let same : record { ip = a; mask = m } ≡ p = let h' = rw valid at h in cc in
        subst IsPrefix same (record { is_address = v; in_width = valid_width m valid })
    | inr invalid ↦ let h' = rw invalid at h in cc
  ]

module _ (inet : Inet) where
  -- What is read as an address is one.
  pub ip_address-IsAddress : (s : Bytes) (a : IpAddress) → ip_address inet s ≡ some a → IsAddress a
  unfolding ip_address
  ip_address-IsAddress s a h =
      let (octets, e, f) = bind-eq-some (inet.pton (family_of s) (c_str s)) _ h in
      let (size, small) = inet.pton_size (family_of s) (c_str s) octets e in
      let same : record { family = family_of s; octets = octets } ≡ a = cc in
      subst IsAddress same (record { has_size = size; are_octets = small })

  full_mask-IsPrefix :
      (a : IpAddress)
      → IsAddress a
      → IsPrefix (record { ip = a; mask = if is_v4 a then 32 else 128 })
  unfolding is_v4
  full_mask-IsPrefix a v = record {
    is_address = v;
    in_width = elim v.has_size [
      | inl (family, size) ↦ ground arith
      | inr (family, size) ↦ ground arith
    ];
  }

  address_part-IsAddress : (s : Bytes) (a : IpAddress) → address_part inet s ≡ some a → IsAddress a
  unfolding address_part
  address_part-IsAddress [] a h =
      let same : record { family = af_inet; octets = replicate 4 0 } ≡ a = cc in
      subst IsAddress same (record { has_size = inl (refl, refl); are_octets = omega arith })
  address_part-IsAddress (c ∷ s) a h = ip_address-IsAddress (c ∷ s) a h

  split_prefix-IsPrefix :
      (s : Bytes) (at : Option ℕ) (p : IpPrefix) → split_prefix inet s at ≡ some p → IsPrefix p
  unfolding split_prefix
  split_prefix-IsPrefix s none p h =
      let (a, e, f) = bind-eq-some (address_part inet s) _ h in
      let same : record { ip = a; mask = if is_v4 a then 32 else 128 } ≡ p = cc in
      subst IsPrefix same (full_mask-IsPrefix a (address_part-IsAddress s a e))
  split_prefix-IsPrefix s (some at) p h =
      let (a, e, f) = bind-eq-some (address_part inet (take at s)) _ h in
      let (m, g, made) = bind-eq-some (stoi (drop (suc at) s)) _ f in
      make-IsPrefix a (address_part-IsAddress (take at s) a e) m p made

  -- What is read as a prefix is one.
  pub ip_prefix-IsPrefix : (s : Bytes) (p : IpPrefix) → ip_prefix inet s ≡ some p → IsPrefix p
  unfolding ip_prefix
  ip_prefix-IsPrefix s p h = split_prefix-IsPrefix s (find (b'/' ∷ []) s) p h

  -- What a text is read as is an address with a mask within its width, and its print is read as the
  -- same.
  pub ip_prefix_sound :
      (s : Bytes) (p : IpPrefix)
      → ip_prefix inet s ≡ some p
      → IsPrefix p × (ip_prefix inet (to_string inet p) ≡ some p)
  ip_prefix_sound s p h = let v = ip_prefix-IsPrefix s p h in (v, ip_prefix-to_string inet p v)
