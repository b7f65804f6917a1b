-- ===== src/Ip/Prefix/Masks.antt =====
-- The masks of both families, and the bits of what they leave of an address.
use sonic_swss_common.Prelude.{
  ℕ, zero, suc, ◌-◌, ◌*◌, ◌≤◌, some, true, [], ◌∷◌, ◌++◌, Bytes, length, take, replicate, ◌==◌,
  nat_eq, bytes_eq, bytes_beq, bytes_beq_iff, ◌≡◌, ◌↔◌, inl, inr, refl, sym, ap, ◌∙◌, arith,
  all_below, all_below_sound,
}
use sonic_swss_common.Ip.{IsOctets}
use sonic_swss_common.Ip.Prefix.{
  IpPrefix, IsPrefix, mask4, mask6, get_mask, and_octets, or_not_octets,
}
use sonic_swss_common.Ip.Prefix.Filled.{
  least, least_bound, filled_octet, joined, empty_fill, take-take,
}
use sonic_swss_common.Ip.Prefix.Bits.{
  octet_bits, bits, ones, octet_parts, bits_injective, length-bits,
}

-- `n` octets whose first `m` bits are ones.
unfoldable pub mask_octets : ℕ → ℕ → Bytes
unfolding ones least
mask_octets zero m = []
mask_octets (suc n) m = ones (least m) ∷ mask_octets n (m - 8)

pub length-mask_octets : (n m : ℕ) → length (mask_octets n m) ≡ n
unfolding mask_octets
length-mask_octets zero m = refl
length-mask_octets (suc n) m = omega (arith, length-mask_octets n (m - 8))

mask4_table : all_below 33 (λ m. mask4 m == mask_octets 4 m) ≡ true
unfolding all_below mask4 mask_octets bytes_beq
mask4_table = refl

mask6_table : all_below 129 (λ m. mask6 m == mask_octets 16 m) ≡ true
unfolding all_below mask6 mask_octets bytes_beq
mask6_table = refl

mask4_lem : (m : ℕ) → m ≤ 32 → mask4 m ≡ mask_octets 4 m
mask4_lem m h =
    (bytes_beq_iff _ _).0
      (all_below_sound 33 (λ m. mask4 m == mask_octets 4 m) m mask4_table (omega arith))

mask6_lem : (m : ℕ) → m ≤ 128 → mask6 m ≡ mask_octets 16 m
mask6_lem m h =
    (bytes_beq_iff _ _).0
      (all_below_sound 129 (λ m. mask6 m == mask_octets 16 m) m mask6_table (omega arith))

pub get_mask_lem :
    (p : IpPrefix)
    → IsPrefix p
    → get_mask p
      ≡ some (record { family = p.ip.family; octets = mask_octets (length p.ip.octets) p.mask })
unfolding get_mask
get_mask_lem p v = elim v.is_address.has_size [
  | inl (family, size) ↦
      let h = v.in_width in let e = mask4_lem p.mask (rw size at h) in rw (family, size, e)
  | inr (family, size) ↦
      let h = v.in_width in let e = mask6_lem p.mask (rw size at h) in rw (family, size, e)
]

pub IsOctets-and_octets :
    (n m : ℕ) (bs : Bytes)
    → length bs ≡ n
    → IsOctets bs
    → IsOctets (and_octets bs (mask_octets n m)) × (length (and_octets bs (mask_octets n m)) ≡ n)
unfolding and_octets mask_octets
IsOctets-and_octets zero m [] e h = (tt, refl)
IsOctets-and_octets (suc n) m [] e h = absurd (omega arith)
IsOctets-and_octets zero m (b ∷ bs) e h = absurd (omega arith)
IsOctets-and_octets (suc n) m (b ∷ bs) e (small, h) =
    let (_, _, small', _) = octet_parts (least m) b (least_bound m) small in
    let (rest, size) = IsOctets-and_octets n (m - 8) bs (omega arith) h in
    ((small', rest), omega arith)

-- The bits behind the prefix are cleared.
pub bits-and_octets :
    (n m : ℕ) (bs : Bytes)
    → length bs ≡ n
    → IsOctets bs
    → bits (and_octets bs (mask_octets n m)) ≡ take m (bits bs) ++ replicate (8 * n - m) 0
unfolding and_octets mask_octets bits
bits-and_octets zero m [] e h = empty_fill m 0
bits-and_octets (suc n) m [] e h = absurd (omega arith)
bits-and_octets zero m (b ∷ bs) e h = absurd (omega arith)
bits-and_octets (suc n) m (b ∷ bs) e (small, h) =
    let (ands, _, _, _) = octet_parts (least m) b (least_bound m) small in
    let rest = bits-and_octets n (m - 8) bs (omega arith) h in
    joined ands rest ∙ filled_octet m n 0 (octet_bits b) (bits bs) refl

pub IsOctets-or_not_octets :
    (n m : ℕ) (bs : Bytes)
    → length bs ≡ n
    → IsOctets bs
    → IsOctets (or_not_octets bs (mask_octets n m))
      × (length (or_not_octets bs (mask_octets n m)) ≡ n)
unfolding or_not_octets mask_octets
IsOctets-or_not_octets zero m [] e h = (tt, refl)
IsOctets-or_not_octets (suc n) m [] e h = absurd (omega arith)
IsOctets-or_not_octets zero m (b ∷ bs) e h = absurd (omega arith)
IsOctets-or_not_octets (suc n) m (b ∷ bs) e (small, h) =
    let (_, _, _, small') = octet_parts (least m) b (least_bound m) small in
    let (rest, size) = IsOctets-or_not_octets n (m - 8) bs (omega arith) h in
    ((small', rest), omega arith)

-- The bits behind the prefix are set.
pub bits-or_not_octets :
    (n m : ℕ) (bs : Bytes)
    → length bs ≡ n
    → IsOctets bs
    → bits (or_not_octets bs (mask_octets n m)) ≡ take m (bits bs) ++ replicate (8 * n - m) 1
unfolding or_not_octets mask_octets bits
bits-or_not_octets zero m [] e h = empty_fill m 1
bits-or_not_octets (suc n) m [] e h = absurd (omega arith)
bits-or_not_octets zero m (b ∷ bs) e h = absurd (omega arith)
bits-or_not_octets (suc n) m (b ∷ bs) e (small, h) =
    let (_, ors, _, _) = octet_parts (least m) b (least_bound m) small in
    let rest = bits-or_not_octets n (m - 8) bs (omega arith) h in
    joined ors rest ∙ filled_octet m n 1 (octet_bits b) (bits bs) refl

module _ (n m : ℕ) (bs cs : Bytes) (eb : length bs ≡ n) (ec : length cs ≡ n) (hb : IsOctets bs)
    (hc : IsOctets cs) where
  -- The masks leave the same of two addresses just where the first bits are the same.
  pub and_octets_agree :
      m ≤ 8 * n
      → (and_octets bs (mask_octets n m) ≡ and_octets cs (mask_octets n m))
        ↔ (take m (bits bs) ≡ take m (bits cs))
  and_octets_agree h = (
    λ same.
        let lb : m ≤ length (bits bs) = omega (arith, length-bits bs) in
        let lc : m ≤ length (bits cs) = omega (arith, length-bits cs) in
        let fill = replicate (8 * n - m) 0 in
        sym (take-take m (bits bs) fill lb)
        ∙ ap (take m) (sym (bits-and_octets n m bs eb hb))
        ∙ ap (λ t. take m (bits t)) same
        ∙ ap (take m) (bits-and_octets n m cs ec hc)
        ∙ take-take m (bits cs) fill lc,
    λ same.
        let (ob, sb) = IsOctets-and_octets n m bs eb hb in
        let (oc, sc) = IsOctets-and_octets n m cs ec hc in
        bits_injective _ _ (sb ∙ sym sc) ob oc (
          bits-and_octets n m bs eb hb
          ∙ ap (λ t. t ++ replicate (8 * n - m) 0) same
          ∙ sym (bits-and_octets n m cs ec hc)),
  )
