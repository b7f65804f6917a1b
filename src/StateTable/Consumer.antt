-- ===== src/StateTable/Consumer.antt =====
-- common/consumerstatetable.cpp
use sonic_swss_common.Prelude.{ℕ, List, [], ◌∷◌, ◌++◌, Bytes, map}
use sonic_swss_common.Kco.{FieldValue, Kco, set_command, del_command}
use sonic_swss_common.Redis.{Redis}
use sonic_swss_common.StateTable.Names.{Table, key_set_name, del_key_set_name, state_hash_prefix}
use sonic_swss_common.StateTable.Scripts.{lua_pops}

pub record Consumer : Type 0 where
  pub table : Table
  pub pop_batch_size : ℕ

-- An element of the reply. If there is no field-value pair, the key is taken as deleted.
unfoldable pub popped_kco : Bytes × List FieldValue → Kco
popped_kco (key, fvs) = record {
  key = key;
  op = elim fvs [ [] ↦ del_command | _ ∷ _ ↦ set_command ];
  fvs = fvs;
}

module _ (r : Redis) where
  open r use {Db}

  -- `ConsumerStateTable::pops`
  unfoldable pub pops : Consumer → Db → List Kco × Db
  unfolding popped_kco
  pops c db =
      let t = c.table in
      let (ret, db') =
        lua_pops r (key_set_name t) (t.table_name ++ t.separator) (del_key_set_name t)
          c.pop_batch_size state_hash_prefix db in
      (map popped_kco ret, db')
