-- ===== src/StateTable/TempView.antt =====
-- `apply_temp_view` of common/producerstatetable.cpp, and what it calls: `Table::dump` of
-- common/table.cpp with common/table_dump.lua. Lua's JSON and its parser hand texts on as they are.
use sonic_swss_common.Prelude.{
  ℕ, ◌+◌, Bool, true, false, not, List, [], ◌∷◌, ◌++◌, Option, none, some, Bytes, bytes_eq, ◌==◌,
  ltb, if◌then◌else◌, length, drop, map, lookup, insert, erase, codes,
}
use sonic_swss_common.Decimal.{to_string}
use sonic_swss_common.Kco.{TableMap, TableDump}
use sonic_swss_common.Redis.{Redis}
use sonic_swss_common.RedisPipeline
use sonic_swss_common.StateTable.Names.{
  Table, key_name, state_hash_prefix, key_set_name, del_key_set_name, channel_name,
}
use sonic_swss_common.StateTable.Scripts.{Eval, evalsha, lua_apply_view}
use sonic_swss_common.StateTable.Producer.{Producer, flatten, clear}

abbrev pub null : Bytes
null = codes "NULL"

-- The field "NULL" stands for a row without fields and is left out.
unfoldable pub strip_null : TableMap → TableMap
strip_null [] = []
strip_null ((f, v) ∷ m) = let rest = strip_null m in if f == null then rest else (f, v) ∷ rest

-- `changed` says whether a value has changed so far; the result is `needDel` and `needSet`.
unfoldable pub compare_fields : TableMap → TableMap → Bool → Bool × Bool
compare_fields [] new changed = (false, changed)
compare_fields ((field, value) ∷ old) new changed = elim (lookup field new) [
  | none ↦ (true, true)
  | some w ↦ compare_fields old new (if w == value then changed else true)
]

unfoldable pub need_del : TableMap → TableMap → Bool
unfolding compare_fields
need_del old new = (compare_fields old new false).0

unfoldable pub need_set : TableMap → TableMap → Bool
unfolding compare_fields
need_set old new = if ltb (length old) (length new) then true else (compare_fields old new false).1

-- `keysToSet`, `keysToDel` and `m_tempViewState`.
pub record Changes : Type 0 where
  pub keys_to_set : List Bytes
  pub keys_to_del : List Bytes
  pub temp : TableDump

-- One object of the current state.
unfoldable pub compare_object : Bytes → TableMap → Changes → Changes
compare_object key old d = elim (lookup key d.temp) [
  | none ↦ record d {
    keys_to_set = d.keys_to_set ++ key ∷ [];
    keys_to_del = d.keys_to_del ++ key ∷ [];
  }
  | some new ↦ record {
    keys_to_del = if need_del old new then d.keys_to_del ++ key ∷ [] else d.keys_to_del;
    keys_to_set = if need_set old new then d.keys_to_set ++ key ∷ [] else d.keys_to_set;
    temp = if need_set old new then d.temp else erase key d.temp;
  }
]

unfoldable pub compare_objects : TableDump → Changes → Changes
unfolding compare_object
compare_objects [] d = d
compare_objects ((key, old) ∷ current) d = compare_objects current (compare_object key old d)

-- Objects of the temporary view that do not exist currently
unfoldable pub new_keys : TableDump → TableDump → List Bytes
new_keys current [] = []
new_keys current ((key, fvs) ∷ temp) =
    let rest = new_keys current temp in
    elim (lookup key current) [ none ↦ key ∷ rest | some old ↦ rest ]

unfoldable pub changes : TableDump → TableDump → Changes
unfolding compare_objects new_keys
changes current temp =
    let d = compare_objects current (record { keys_to_set = []; keys_to_del = []; temp = temp }) in
    record d { keys_to_set = d.keys_to_set ++ new_keys current d.temp }

unfoldable pub flatten_dump : TableDump → List Bytes
unfolding flatten
flatten_dump [] = []
flatten_dump ((key, fvs) ∷ temp) = to_string (length fvs) ∷ (flatten fvs ++ flatten_dump temp)

unfoldable pub hash_names : Table → TableDump → List Bytes
hash_names t = map (λ (kfv : Bytes × TableMap). state_hash_prefix ++ key_name t kfv.0)

unfoldable pub apply_args : Table → ℕ → Changes → Eval
unfolding flatten_dump hash_names
apply_args t db_id d = record {
  numkeys = length d.temp + 3;
  args =
      channel_name t db_id
      ∷ key_set_name t
      ∷ del_key_set_name t
      ∷ (hash_names t d.temp
          ++ (codes "G"
              ∷ to_string (length d.keys_to_set)
              ∷ (d.keys_to_set
                  ++ (to_string (length d.keys_to_del) ∷ (d.keys_to_del ++ flatten_dump d.temp)))));
}

module _ (r : Redis) where
  open r use {Db, hgetall, keys}

  unfoldable pub dump_rows : Table → List Bytes → Db → TableDump → TableDump
  unfolding strip_null
  dump_rows t [] db dump = dump
  dump_rows t (k ∷ ks) db dump =
      dump_rows t ks db (insert (drop (length t.table_name + 1) k) (strip_null (hgetall k db)) dump)

  -- The script asks for the keys with a colon, whatever the table's separator is.
  unfoldable pub dump : Table → Db → TableDump
  unfolding dump_rows
  dump t db = dump_rows t (keys (t.table_name ++ codes ":") db) db []

  -- `none` is the exception that is thrown without a temporary view.
  unfoldable pub apply_temp_view : Producer r → Option (Producer r)
  unfolding changes
  apply_temp_view p =
      if not p.temp_view_active
      then none
      else let q = clear r p in
        let (current, pipe) = RedisPipeline.push_reply r (λ db. (dump p.table db, db)) q.pipe in
        let d = changes current p.temp_view_state in
        let command = evalsha r (lua_apply_view r) (apply_args p.table p.db_id d) in
        some (record q {
          pipe = RedisPipeline.flush r (RedisPipeline.push r command pipe);
          temp_view_active = false;
          temp_view_state = [];
        })
