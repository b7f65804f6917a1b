-- ===== src/Ip/Addresses/Members.antt =====
-- Membership in a set of addresses behind the operations that change it.
use sonic_swss_common.Prelude.{
  true, false, ◌&&◌, ◌||◌, not, List, [], ◌∷◌, All, ◌≡◌, ap, subst, arith, Bool-cases, inl, inr,
}
use sonic_swss_common.Ip.{IpAddress, IsAddress, less, equal}
use sonic_swss_common.Ip.Addresses.{equivalent, add, contains, remove}
use sonic_swss_common.Ip.Addresses.Order.{equivalent_sound, equivalent-equal}

abbrev pub AreAddresses : List IpAddress → Type 0
AreAddresses = All IsAddress

same_test :
    (ip jp o : IpAddress)
    → IsAddress jp
    → IsAddress o
    → equivalent jp o ≡ true
    → equivalent ip jp ≡ equivalent ip o
same_test ip jp o v w h = ap (equivalent ip) (equivalent_sound jp o v w h)

contains-add :
    (ip jp : IpAddress) (ips : List IpAddress)
    → IsAddress jp
    → AreAddresses ips
    → contains ip (add jp ips) ≡ (equivalent ip jp || contains ip ips)
unfolding contains add
contains-add ip jp [] v w = ground arith
contains-add ip jp (o ∷ ips) v (u, w) =
    let rest = contains-add ip jp ips v w in
    let same : equivalent jp o ≡ true → equivalent ip jp ≡ equivalent ip o =
      same_test ip jp o v u in
    let e : (less jp o ≡ false) → (less o jp ≡ false) → equivalent jp o ≡ true =
      unfold equivalent in ground arith in
    ground arith

contains-remove :
    (ip jp : IpAddress) (ips : List IpAddress)
    → IsAddress ip
    → IsAddress jp
    → AreAddresses ips
    → contains ip (remove jp ips) ≡ (not (equivalent ip jp) && contains ip ips)
unfolding contains remove
contains-remove ip jp [] z v w = ground arith
contains-remove ip jp (o ∷ ips) z v (u, w) =
    let rest = contains-remove ip jp ips z v w in
    let same : equivalent jp o ≡ true → equivalent ip jp ≡ equivalent ip o =
      same_test ip jp o v u in
    elim (Bool-cases (equivalent jp o)) [
      | inl e ↦ let e' = same e in ground arith
      | inr e ↦
          let f : (equivalent ip o ≡ true) → (equivalent ip jp ≡ true) → equivalent jp o ≡ true =
            λ h k. subst (λ x. equivalent x o ≡ true) (equivalent_sound ip jp z v k) h in
          ground arith
    ]

-- An address that is added is in the set, one that is removed is not, and every other address, as
-- `operator==` tells them apart, is in the set as before.
pub contains_changed :
    (ip jp : IpAddress) (ips : List IpAddress)
    → IsAddress ip
    → IsAddress jp
    → AreAddresses ips
    → (contains ip (add jp ips) ≡ (equal ip jp || contains ip ips))
      × (contains ip (remove jp ips) ≡ (not (equal ip jp) && contains ip ips))
contains_changed ip jp ips u v w =
    let e = equivalent-equal ip jp u v in
    (rw e at (contains-add ip jp ips v w), rw e at (contains-remove ip jp ips u v w))
