-- ===== src/ConfigDb/Examples.antt =====
-- Tests of the configuration database, and its theorems at concrete inputs.
use sonic_swss_common.Prelude.{
  List, [], ◌∷◌, none, Bytes, codes, ◌≡◌, refl, arith, lookup, insert, erase, starts_with, bytes_eq,
  contains, bytes_beq, find,
}
use sonic_swss_common.Prelude.Maybe.{◌>>=◌}
use sonic_swss_common.Kco.{TableMap, TableDump}
use sonic_swss_common.Redis.Memory.{Memory, empty, hset, hdel, del}
use sonic_swss_common.Redis.Model.{memory_redis, hget, hgetall, keys}
use sonic_swss_common.Redis.Loops.{hset_all, del_all}
use sonic_swss_common.ConfigDb.{
  Config, set_entry, get_entry, get_table, get_split_keys, delete_table, mod_config, entry_name,
  to_upper, row_of, pipe_set_entry,
}
use sonic_swss_common.ConfigDb.Entries.{hget-set_entry, pipe_set_entry_same}
use sonic_swss_common.ConfigDb.Tables.{IsTable, get_table-hget}
use sonic_swss_common.ConfigDb.Modify.{merge_config, TablesFit, hget-mod_config}

abbrev config_db : Config
config_db = record { table_name_separator = codes "|" }

abbrev vlan : Bytes
vlan = codes "vlan"

vlan-IsTable : IsTable config_db vlan
vlan-IsTable = record { sep = b'|'; single = refl; free = unfold to_upper in omega arith }

abbrev first : TableMap
first = (codes "id", codes "1") ∷ (codes "mtu", codes "9100") ∷ []

abbrev second : TableMap
second = (codes "id", codes "2") ∷ []

abbrev filled : Memory
filled = set_entry memory_redis config_db vlan (codes "v1") first empty

tests :
    (get_entry memory_redis config_db vlan
        (codes "v1")
        (set_entry memory_redis config_db vlan (codes "v1") second filled)
      ≡ second)
    × (get_table memory_redis config_db vlan filled ≡ (codes "v1", first) ∷ [])
    × (get_split_keys memory_redis config_db vlan filled ≡ codes "v1" ∷ [])
    × (get_table memory_redis config_db vlan (delete_table memory_redis config_db vlan filled) ≡ [])
unfolding get_entry set_entry get_table get_split_keys delete_table keys hgetall hset_all hset hdel
    del lookup insert contains find bytes_beq starts_with entry_name erase row_of del_all
tests = (refl, refl, refl, refl)

hget-set_entry_example :
    hget
      (codes "VLAN|v1")
      (codes "mtu")
      (set_entry memory_redis config_db vlan (codes "v1") second filled)
    ≡ none
unfolding entry_name bytes_beq lookup to_upper
hget-set_entry_example =
    hget-set_entry memory_redis config_db vlan (codes "v1") second (codes "VLAN|v1") (codes "mtu")
      filled (unfold lookup in (refl, tt))

get_table-hget_example :
    (lookup (codes "v1") (get_table memory_redis config_db vlan filled) >>= lookup (codes "mtu"))
    ≡ hget (entry_name config_db vlan (codes "v1")) (codes "mtu") filled
get_table-hget_example =
    get_table-hget config_db vlan vlan-IsTable memory_redis (codes "v1") (codes "mtu") filled

abbrev change : List (Bytes × TableDump)
change = (vlan, (codes "v1", second) ∷ []) ∷ (codes "Vlan", []) ∷ []

change-TablesFit : TablesFit config_db change
change-TablesFit = (
  (vlan-IsTable, ((unfold lookup in (refl, tt)), tt)),
  ((record { sep = b'|'; single = refl; free = unfold to_upper in omega arith }, tt), tt),
)

hget-mod_config_example :
    hget
      (entry_name config_db vlan (codes "v1"))
      (codes "mtu")
      (mod_config memory_redis config_db change filled)
    ≡ merge_config change
        (to_upper vlan)
        (codes "v1")
        (codes "mtu")
        (hget (entry_name config_db vlan (codes "v1")) (codes "mtu") filled)
hget-mod_config_example =
    hget-mod_config memory_redis config_db vlan vlan-IsTable change (codes "v1") (codes "mtu")
      filled change-TablesFit

pipe_set_entry_same_example :
    pipe_set_entry memory_redis config_db vlan (codes "v1") second filled
    ≡ set_entry memory_redis config_db vlan (codes "v1") second filled
pipe_set_entry_same_example =
    pipe_set_entry_same memory_redis config_db vlan (codes "v1") second filled
