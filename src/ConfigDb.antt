-- ===== src/ConfigDb.antt =====
-- common/configdb.cpp: the configuration database. An entry is the hash named by its table in
-- capitals, the separator and its key.
pub mod Entries
pub mod Tables
pub mod Modify
mod Examples
use sonic_swss_common.Prelude.Maybe.{◌>>=◌}
use sonic_swss_common.Prelude.{
  ℕ, ◌+◌, ◌-◌, Bool, true, false, ◌&&◌, List, [], ◌∷◌, ◌++◌, Option, none, some, map, Bytes,
  bytes_eq, ◌==◌, nat_eq, leb, if◌then◌else◌, find, drop, insert, lookup, codes,
}
use sonic_swss_common.Kco.{FieldValue, TableMap, TableDump}
use sonic_swss_common.Redis.{Redis}
use sonic_swss_common.Redis.Loops.{hset_all, del_all}
use sonic_swss_common.RedisPipeline.{run_all}

-- `m_table_name_separator`
pub record Config : Type 0 where
  pub table_name_separator : Bytes

-- `boost::to_upper_copy` in the C locale
unfoldable pub upper : ℕ → ℕ
upper c = if leb b'a' c && leb c b'z' then c - 32 else c

unfoldable pub to_upper : Bytes → Bytes
unfolding upper
to_upper s = map upper s

-- What all keys of a table start with.
unfoldable pub table_prefix : Config → Bytes → Bytes
unfolding to_upper
table_prefix c table = to_upper table ++ c.table_name_separator

-- `_hash`
unfoldable pub entry_name : Config → Bytes → Bytes → Bytes
unfolding table_prefix
entry_name c table key = table_prefix c table ++ key

-- `key.substr(key.find(separator) + 1)`
unfoldable pub row_of : Config → Bytes → Option Bytes
unfolding find
row_of c key = do pos ← find c.table_name_separator key; some (drop (pos + 1) key)

module _ (r : Redis) (c : Config) where
  open r use {Db, hgetall, hdel, del, keys}

  unfoldable pub get_entry : Bytes → Bytes → Db → TableMap
  get_entry table key db = hgetall (entry_name c table key) db

  -- HDEL for the fields of `original` that are not in `data`.
  unfoldable pub hdel_missing : Bytes → TableMap → TableMap → Db → Db
  hdel_missing hash entry [] db = db
  hdel_missing hash entry ((k, v) ∷ original) db = elim (lookup k entry) [
    | none ↦ hdel_missing hash entry original (hdel hash k db)
    | some w ↦ hdel_missing hash entry original db
  ]

  unfoldable pub set_entry : Bytes → Bytes → TableMap → Db → Db
  unfolding get_entry hdel_missing
  set_entry table key [] db = del (entry_name c table key) db
  set_entry table key (fv ∷ entry) db =
      let original = get_entry table key db in
      let db1 = hset_all r (entry_name c table key) (fv ∷ entry) db in
      hdel_missing (entry_name c table key) (fv ∷ entry) original db1

  unfoldable pub mod_entry : Bytes → Bytes → TableMap → Db → Db
  mod_entry table key [] db = del (entry_name c table key) db
  mod_entry table key (fv ∷ entry) db = hset_all r (entry_name c table key) (fv ∷ entry) db

  -- `get_keys` without `split`, and with it
  unfoldable pub get_keys : Bytes → Db → List Bytes
  get_keys table db = keys (table_prefix c table) db

  or_empty : Option Bytes → Bytes
  or_empty none = []
  or_empty (some row) = row

  unfoldable pub get_split_keys : Bytes → Db → List Bytes
  unfolding get_keys or_empty
  get_split_keys table db = map (λ key. or_empty (row_of c key)) (get_keys table db)

  -- `data[row] = entry` for each key with a separator
  unfoldable pub add_rows : List Bytes → Db → TableDump → TableDump
  add_rows [] db entry = entry
  add_rows (key ∷ ks) db entry = elim (row_of c key) [
    | none ↦ add_rows ks db entry
    | some row ↦ add_rows ks db (insert row (hgetall key db) entry)
  ]

  unfoldable pub get_table : Bytes → Db → TableDump
  unfolding add_rows
  get_table table db = add_rows (keys (table_prefix c table) db) db []

  unfoldable pub delete_table : Bytes → Db → Db
  delete_table table db = del_all r (keys (table_prefix c table) db) db

  -- The rows of one table in `mod_config`
  unfoldable pub mod_entries : Bytes → TableDump → Db → Db
  unfolding mod_entry
  mod_entries table [] db = db
  mod_entries table ((key, fvs) ∷ rows) db = mod_entries table rows (mod_entry table key fvs db)

  unfoldable pub mod_table : Bytes → TableDump → Db → Db
  unfolding mod_entries delete_table
  mod_table table [] db = delete_table table db
  mod_table table (row ∷ rows) db = mod_entries table (row ∷ rows) db

  unfoldable pub mod_config : List (Bytes × TableDump) → Db → Db
  unfolding mod_table
  mod_config [] db = db
  mod_config ((table, rows) ∷ entry) db = mod_config entry (mod_table table rows db)

  -- The commands that `ConfigDBPipeConnector` enqueues: `_set_entry`, `_mod_entry` and the DELs of
  -- `_delete_entries`.
  unfoldable pub queue_missing : Bytes → TableMap → TableMap → List (Db → Db)
  queue_missing hash entry [] = []
  queue_missing hash entry ((k, v) ∷ original) = elim (lookup k entry) [
    | none ↦ hdel hash k ∷ queue_missing hash entry original
    | some w ↦ queue_missing hash entry original
  ]

  unfoldable pub queue_set_entry : Bytes → Bytes → TableMap → Db → List (Db → Db)
  unfolding queue_missing get_entry
  queue_set_entry table key [] db = del (entry_name c table key) ∷ []
  queue_set_entry table key (fv ∷ entry) db =
      hset_all r (entry_name c table key) (fv ∷ entry)
      ∷ queue_missing (entry_name c table key) (fv ∷ entry) (get_entry table key db)

  -- `ConfigDBPipeConnector::set_entry`: MULTI, the commands, EXEC
  unfoldable pub pipe_set_entry : Bytes → Bytes → TableMap → Db → Db
  unfolding queue_set_entry run_all
  pipe_set_entry table key entry db = run_all r (queue_set_entry table key entry db) db
