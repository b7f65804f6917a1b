-- ===== src/StateTable/Producer.antt =====
-- common/producerstatetable.cpp
use sonic_swss_common.Prelude.{
  ℕ, ◌+◌, Bool, true, ◌&&◌, ◌||◌, not, List, [], ◌∷◌, ◌++◌, Option, none, some, Bytes, bytes_eq,
  if◌then◌else◌, length, replicate, map, lookup, insert, erase, codes,
}
use sonic_swss_common.Kco.{FieldValue, Kco, TableMap, TableDump}
use sonic_swss_common.Decimal.{to_string}
use sonic_swss_common.Redis.{Redis}
use sonic_swss_common.RedisPipeline
use sonic_swss_common.RedisPipeline.{Pipeline}
use sonic_swss_common.StateTable.Names.{
  Table, key_name, state_hash_prefix, key_set_name, del_key_set_name, channel_name,
}
use sonic_swss_common.StateTable.Scripts.{
  Eval, evalsha, lua_set, lua_del, lua_batched_set, lua_batched_del, lua_clear,
}

-- The fields and values one after another.
unfoldable pub flatten : List FieldValue → List Bytes
flatten [] = []
flatten ((field, value) ∷ fvs) = field ∷ value ∷ flatten fvs

unfoldable pub flatten_kcos : List Kco → List Bytes
unfolding flatten
flatten_kcos [] = []
flatten_kcos (kco ∷ kcos) = to_string (length kco.fvs) ∷ (flatten kco.fvs ++ flatten_kcos kcos)

module _ (t : Table) (db_id : ℕ) where
  unfoldable pub set_args : Bytes → List FieldValue → Eval
  unfolding flatten
  set_args key values = record {
    numkeys = length values + 2;
    args =
        channel_name t db_id
        ∷ key_set_name t
        ∷ (replicate (length values) (state_hash_prefix ++ key_name t key)
            ++ (codes "G" ∷ key ∷ flatten values));
  }

  unfoldable pub del_args : Bytes → Eval
  del_args key = record {
    numkeys = 4;
    args =
        channel_name t db_id
        ∷ key_set_name t
        ∷ (state_hash_prefix ++ key_name t key)
        ∷ del_key_set_name t
        ∷ codes "G"
        ∷ key
        ∷ codes "''"
        ∷ codes "''"
        ∷ [];
  }

  unfoldable pub batched_set_args : List Kco → Eval
  unfolding flatten_kcos
  batched_set_args values = record {
    numkeys = length values + 3;
    args =
        channel_name t db_id
        ∷ key_set_name t
        ∷ (state_hash_prefix ++ (t.table_name ++ t.separator))
        ∷ (map (λ (v : Kco). v.key) values ++ (codes "G" ∷ flatten_kcos values));
  }

  unfoldable pub batched_del_args : List Bytes → Eval
  batched_del_args ks = record {
    numkeys = length ks + 4;
    args =
        channel_name t db_id
        ∷ key_set_name t
        ∷ del_key_set_name t
        ∷ (state_hash_prefix ++ (t.table_name ++ t.separator))
        ∷ (ks ++ codes "G" ∷ []);
  }

  unfoldable pub clear_args : Eval
  clear_args = record {
    numkeys = 3;
    args = key_set_name t ∷ (state_hash_prefix ++ t.table_name) ∷ del_key_set_name t ∷ [];
  }

-- `m_tempViewState[key][field] = value` for each pair.
unfoldable pub put_fields : List FieldValue → TableMap → TableMap
put_fields [] m = m
put_fields ((field, value) ∷ fvs) m = put_fields fvs (insert field value m)

or_empty : Option TableMap → TableMap
or_empty none = []
or_empty (some m) = m

-- A key without fields is not created, since only `[field]` is assigned.
unfoldable pub temp_set : Bytes → List FieldValue → TableDump → TableDump
unfolding put_fields or_empty
temp_set key [] view = view
temp_set key (fv ∷ fvs) view = insert key (put_fields (fv ∷ fvs) (or_empty (lookup key view))) view

module _ (r : Redis) where
  open r use {Db, scard}

  pub record Producer : Type 0 where
    pub table : Table
    pub db_id : ℕ
    pub flush_pub : Bool
    pub buffered : Bool
    pub temp_view_active : Bool
    pub temp_view_state : TableDump
    pub pipe : Pipeline r

  -- Whether the scripts publish: `!m_flushPub || !m_buffered`.
  unfoldable pub scripts_publish : Producer → Bool
  scripts_publish p = not p.flush_pub || not p.buffered

  -- The pipeline is told the channel, and the four scripts are loaded: `scripts_publish` says how
  -- they end.
  unfoldable pub reload_redis_script : Producer → Producer
  reload_redis_script p =
      let pipe =
        if p.buffered && p.flush_pub
        then RedisPipeline.add_channel r (channel_name p.table p.db_id) p.pipe
        else p.pipe in
      let load = RedisPipeline.load_redis_script r in
      record p { pipe = load (load (load (load pipe))) }

  unfoldable pub set_buffered : Bool → Producer → Producer
  unfolding reload_redis_script
  set_buffered buffered p = reload_redis_script (record p { buffered = buffered })

  -- Every operation ends so: the command is pushed, and an unbuffered producer flushes.
  unfoldable pub send : (Db → Db) → Producer → Producer
  send command p =
      let pipe = RedisPipeline.push r command p.pipe in
      record p { pipe = if p.buffered then pipe else RedisPipeline.flush r pipe }

  unfoldable pub set : Bytes → List FieldValue → Producer → Producer
  unfolding send scripts_publish
  set key values p =
      if p.temp_view_active
      then record p { temp_view_state = temp_set key values p.temp_view_state }
      else send (evalsha r (lua_set r (scripts_publish p)) (set_args p.table p.db_id key values)) p

  unfoldable pub del : Bytes → Producer → Producer
  unfolding send scripts_publish
  del key p =
      if p.temp_view_active
      then record p { temp_view_state = erase key p.temp_view_state }
      else send (evalsha r (lua_del r (scripts_publish p)) (del_args p.table p.db_id key)) p

  unfoldable pub temp_set_all : List Kco → TableDump → TableDump
  temp_set_all [] view = view
  temp_set_all (kco ∷ kcos) view = temp_set_all kcos (temp_set kco.key kco.fvs view)

  -- `set` of many requests
  unfoldable pub set_all : List Kco → Producer → Producer
  unfolding send scripts_publish temp_set_all
  set_all values p =
      if p.temp_view_active
      then record p { temp_view_state = temp_set_all values p.temp_view_state }
      else send
          (evalsha r (lua_batched_set r (scripts_publish p))
            (batched_set_args p.table p.db_id values))
          p

  unfoldable pub erase_all : List Bytes → TableDump → TableDump
  erase_all [] view = view
  erase_all (key ∷ ks) view = erase_all ks (erase key view)

  -- `del` of many keys
  unfoldable pub del_all : List Bytes → Producer → Producer
  unfolding send scripts_publish erase_all
  del_all ks p =
      if p.temp_view_active
      then record p { temp_view_state = erase_all ks p.temp_view_state }
      else send
          (evalsha r (lua_batched_del r (scripts_publish p)) (batched_del_args p.table p.db_id ks))
          p

  -- `SCARD` of the key set
  unfoldable pub count : Producer → ℕ × Producer
  count p =
      let (n, pipe) =
        RedisPipeline.push_reply r (λ db. (scard (key_set_name p.table) db, db)) p.pipe in
      (n, record p { pipe = pipe })

  unfoldable pub flush : Producer → Producer
  flush p = record p { pipe = RedisPipeline.flush r p.pipe }

  unfoldable pub clear : Producer → Producer
  clear p = record p {
    pipe =
        RedisPipeline.flush r
          (RedisPipeline.push r (evalsha r (lua_clear r) (clear_args p.table p.db_id)) p.pipe);
  }

  unfoldable pub create_temp_view : Producer → Producer
  create_temp_view p = record p { temp_view_active = true; temp_view_state = [] }
