-- ===== src/PlainTable/Examples.antt =====
-- A test of the plain table.
use sonic_swss_common.Prelude.{codes, ◌≡◌, refl}
use sonic_swss_common.PlainTable.{strip_special_sym}

strip_test : strip_special_sym (codes "10.0.0.1@eth0") ≡ codes "10.0.0.1"
unfolding strip_special_sym
strip_test = refl
