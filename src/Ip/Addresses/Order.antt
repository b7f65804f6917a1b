-- ===== src/Ip/Addresses/Order.antt =====
-- The order of addresses tells any two of them apart.
use sonic_swss_common.Prelude.{
  Bool, true, false, ◌&&◌, not, [], ◌∷◌, Bytes, length, ◌==◌, nat_eq, bytes_eq, eq_iff, eq_refl,
  subst, ◌≡◌, inl, inr, refl, sym, ◌∙◌, arith, Bool-cases,
}
use sonic_swss_common.Ip.{IpAddress, IsAddress, IsOctets, word, memcmp_less, less, equal}
use sonic_swss_common.Ip.Addresses.{equivalent}

word_injective :
    (bs cs : Bytes)
    → length bs ≡ length cs
    → IsOctets bs
    → IsOctets cs
    → word bs ≡ word cs
    → bs ≡ cs
unfolding word
word_injective [] [] e hb hc same = refl
word_injective [] (c ∷ cs) e hb hc same = absurd (omega arith)
word_injective (b ∷ bs) [] e hb hc same = absurd (omega arith)
word_injective (b ∷ bs) (c ∷ cs) e (b256, hb) (c256, hc) same =
    let first : b ≡ c = omega arith in
    let rest = word_injective bs cs (omega arith) hb hc (omega arith) in cc

memcmp_same :
    (bs cs : Bytes)
    → length bs ≡ length cs
    → memcmp_less bs cs ≡ false
    → memcmp_less cs bs ≡ false
    → bs ≡ cs
unfolding memcmp_less
memcmp_same [] [] e h k = refl
memcmp_same [] (c ∷ cs) e h k = absurd (omega arith)
memcmp_same (b ∷ bs) [] e h k = absurd (omega arith)
memcmp_same (b ∷ bs) (c ∷ cs) e h k = elim (Bool-cases (b == c)) [
  | inl s ↦
      let first = (eq_iff b c).0 s in
      let rest : bs ≡ cs = memcmp_same bs cs (omega arith) (ground arith) (ground arith) in cc
  | inr d ↦ absurd (ground arith)
]

memcmp_irreflexive : (bs : Bytes) → memcmp_less bs bs ≡ false
unfolding memcmp_less
memcmp_irreflexive [] = refl
memcmp_irreflexive (b ∷ bs) = ground (arith, memcmp_irreflexive bs)

less_irreflexive : (a : IpAddress) → less a a ≡ false
unfolding less
less_irreflexive a = ground (arith, memcmp_irreflexive a.octets)

pub equivalent_refl : (a : IpAddress) → equivalent a a ≡ true
unfolding equivalent
equivalent_refl a = rw (less_irreflexive a) refl

same_octets :
    (a o : IpAddress)
    → IsAddress a
    → IsAddress o
    → less a o ≡ false
    → less o a ≡ false
    → (a.family ≡ o.family) × (a.octets ≡ o.octets)
unfolding less
same_octets a o v w h k = elim v.has_size [
  | inl (family, size) ↦ elim w.has_size [
    | inl (f, s) ↦
        let words : word a.octets ≡ word o.octets = ground arith in
        (
          family ∙ sym f,
          word_injective a.octets o.octets (size ∙ sym s) v.are_octets w.are_octets words,
        )
    | inr (f, s) ↦ absurd (ground arith)
  ]
  | inr (family, size) ↦ elim w.has_size [
    | inl (f, s) ↦ absurd (ground arith)
    | inr (f, s) ↦
        (family ∙ sym f, memcmp_same a.octets o.octets (size ∙ sym s) (ground arith) (ground arith))
  ]
]

neither : (p q : Bool) → (not p && not q) ≡ true → (p ≡ false) × (q ≡ false)
neither p q h = ground arith

-- Two addresses of which neither is less are the same.
pub equivalent_sound : (a o : IpAddress) → IsAddress a → IsAddress o → equivalent a o ≡ true → a ≡ o
unfolding equivalent
equivalent_sound a o v w h =
    let (l, g) = neither (less a o) (less o a) h in
    let (family, octets) = same_octets a o v w l g in cc

equal_sound : (a o : IpAddress) → equal a o ≡ true → a ≡ o
unfolding equal
equal_sound a o h =
    let family : a.family ≡ o.family = ground (arith, eq_iff a.family o.family) in
    let octets : a.octets ≡ o.octets = ground (arith, eq_iff a.octets o.octets) in cc

equal_refl : (a : IpAddress) → IsAddress a → equal a a ≡ true
unfolding equal
equal_refl a v = elim v.has_size [
  | inl (family, size) ↦ ground (arith, eq_refl a.octets)
  | inr (family, size) ↦ ground (arith, eq_refl a.octets)
]

-- What a set takes for the same address is what `operator==` takes for it.
pub equivalent-equal : (a o : IpAddress) → IsAddress a → IsAddress o → equivalent a o ≡ equal a o
equivalent-equal a o v w = elim (Bool-cases (equivalent a o)) [
  | inl e ↦
      let same = equivalent_sound a o v w e in
      e ∙ sym (subst (λ x. equal a x ≡ true) same (equal_refl a v))
  | inr e ↦ elim (Bool-cases (equal a o)) [
    | inl f ↦
        let same = equal_sound a o f in
        subst (λ x. equivalent a x ≡ true) same (equivalent_refl a) ∙ sym f
    | inr f ↦ e ∙ sym f
  ]
]
