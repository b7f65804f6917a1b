-- ===== src/StateTable/Scripts.antt =====
-- The Lua scripts of common/producerstatetable.cpp, common/producer_state_table_apply_view.lua and
-- common/consumer_state_table_pops.lua, run by EVALSHA on their KEYS and ARGV. A script's argument
-- lists are matched from the front where it indexes them; a call with too few arguments stops, and
-- the producer makes none.
use sonic_swss_common.Prelude.{
  ℕ, suc, ◌+◌, ◌*◌, Bool, ◌&&◌, List, [], ◌∷◌, ◌++◌, Bytes, bytes_eq, ltb, ◌==◌, nat_eq,
  if◌then◌else◌, take, drop,
}
use sonic_swss_common.Kco.{FieldValue}
use sonic_swss_common.Decimal.{scan}
use sonic_swss_common.Redis.{Redis}
use sonic_swss_common.Redis.Loops.{hset_all, del_all}

-- `EVALSHA sha numkeys args...`: the first `numkeys` arguments are KEYS, the others ARGV.
pub record Eval : Type 0 where
  pub numkeys : ℕ
  pub args : List Bytes

-- `tonumber` of a count.
abbrev pub to_number : Bytes → ℕ
to_number = scan 0

module _ (r : Redis) where
  open r use {Db, hgetall, hset, sadd, srem, spop, del, publish, keys}

  unfoldable pub evalsha : (List Bytes → List Bytes → Db → Db) → Eval → Db → Db
  evalsha script e = script (take e.numkeys e.args) (drop e.numkeys e.args)

  -- `luaPub`, which is there unless the pipeline publishes.
  unfoldable pub lua_pub : Bool → ℕ → Bytes → Bytes → Db → Db
  lua_pub with_pub added channel message db =
      if with_pub && ltb 0 added then publish channel message db else db

  -- `for i = 0, #KEYS - 3 do HSET KEYS[3 + i] ARGV[3 + i * 2] ARGV[4 + i * 2]`
  unfoldable pub hset_each : List Bytes → List Bytes → Db → Db
  hset_each (hash ∷ hashes) (field ∷ value ∷ argv) db =
      hset_each hashes argv (hset hash field value db)
  hset_each _ _ db = db

  unfoldable pub lua_set : Bool → List Bytes → List Bytes → Db → Db
  unfolding hset_each lua_pub
  lua_set with_pub (channel ∷ key_set ∷ hashes) (message ∷ key ∷ argv) db =
      let (added, db1) = sadd key_set key db in
      lua_pub with_pub added channel message (hset_each hashes argv db1)
  lua_set _ _ _ db = db

  unfoldable pub lua_del : Bool → List Bytes → List Bytes → Db → Db
  unfolding lua_pub
  lua_del with_pub (channel ∷ key_set ∷ hash ∷ del_set ∷ _) (message ∷ key ∷ _) db =
      let (added, db1) = sadd key_set key db in
      lua_pub with_pub added channel message (del hash (sadd del_set key db1).1)
  lua_del _ _ _ db = db

  -- `for j = 0, tonumber(ARGV[idx]) - 1 do HSET KEYS[3] .. KEYS[4 + i] attr val`, from the count at
  -- the front of `argv`.
  unfoldable pub hset_count : Bytes → ℕ → List Bytes → Db → Db
  hset_count hash (suc n) (field ∷ value ∷ argv) db =
      hset_count hash n argv (hset hash field value db)
  hset_count hash _ _ db = db

  unfoldable pub batched_set_each : Bytes → Bytes → List Bytes → List Bytes → ℕ → Db → ℕ × Db
  unfolding hset_count
  batched_set_each key_set prefix (key ∷ ks) (count ∷ argv) added db =
      let (new, db1) = sadd key_set key db in
      let n = to_number count in
      batched_set_each key_set prefix ks (drop (n * 2) argv) (added + new)
        (hset_count (prefix ++ key) n argv db1)
  batched_set_each _ _ _ _ added db = (added, db)

  unfoldable pub lua_batched_set : Bool → List Bytes → List Bytes → Db → Db
  unfolding batched_set_each lua_pub
  lua_batched_set with_pub (channel ∷ key_set ∷ prefix ∷ ks) (message ∷ argv) db =
      let (added, db1) = batched_set_each key_set prefix ks argv 0 db in
      lua_pub with_pub added channel message db1
  lua_batched_set _ _ _ db = db

  unfoldable pub batched_del_each : Bytes → Bytes → Bytes → List Bytes → ℕ → Db → ℕ × Db
  batched_del_each key_set del_set prefix (key ∷ ks) added db =
      let (new, db1) = sadd key_set key db in
      batched_del_each key_set del_set prefix ks (added + new)
        (del (prefix ++ key) (sadd del_set key db1).1)
  batched_del_each _ _ _ [] added db = (added, db)

  unfoldable pub lua_batched_del : Bool → List Bytes → List Bytes → Db → Db
  unfolding batched_del_each lua_pub
  lua_batched_del with_pub (channel ∷ key_set ∷ del_set ∷ prefix ∷ ks) (message ∷ _) db =
      let (added, db1) = batched_del_each key_set del_set prefix ks 0 db in
      lua_pub with_pub added channel message db1
  lua_batched_del _ _ _ db = db

  unfoldable pub lua_clear : List Bytes → List Bytes → Db → Db
  lua_clear (key_set ∷ prefix ∷ del_set ∷ _) _ db =
      let db1 = del key_set db in del del_set (del_all r (keys prefix db1) db1)
  lua_clear _ _ db = db

  unfoldable pub sadd_all : Bytes → List Bytes → Db → Db
  sadd_all set [] db = db
  sadd_all set (m ∷ ms) db = sadd_all set ms (sadd set m db).1

  -- `for j = 4, #KEYS do`
  unfoldable pub apply_each : List Bytes → List Bytes → Db → Db
  unfolding hset_count
  apply_each (hash ∷ hashes) (count ∷ argv) db =
      let n = to_number count in apply_each hashes (drop (n * 2) argv) (hset_count hash n argv db)
  apply_each _ _ db = db

  -- The part of the script that reads ARGV from the count of keys to delete.
  unfoldable pub apply_del : Bytes → List Bytes → List Bytes → Db → Db
  unfolding sadd_all apply_each
  apply_del del_set hashes (dels ∷ argv) db =
      let n = to_number dels in apply_each hashes (drop n argv) (sadd_all del_set (take n argv) db)
  apply_del del_set hashes [] db = db

  unfoldable pub lua_apply_view : List Bytes → List Bytes → Db → Db
  unfolding apply_del
  lua_apply_view (channel ∷ key_set ∷ del_set ∷ hashes) (message ∷ sets ∷ argv) db =
      let n = to_number sets in
      publish channel message
        (apply_del del_set hashes (drop n argv) (sadd_all key_set (take n argv) db))
  lua_apply_view _ _ db = db

  -- One round of consumer_state_table_pops.lua; `KEYS[2]` is the table's name with the separator.
  unfoldable pub pop_key : Bytes → Bytes → Bytes → Bytes → Db → List FieldValue × Db
  pop_key tablename del_set stateprefix key db =
      let (num, db1) = srem del_set key db in
      let db2 = if num == 1 then del (tablename ++ key) db1 else db1 in
      let fieldvalues = hgetall (stateprefix ++ (tablename ++ key)) db2 in
      let db3 = hset_all r (tablename ++ key) fieldvalues db2 in
      (fieldvalues, del (stateprefix ++ (tablename ++ key)) db3)

  unfoldable pub pop_keys :
      Bytes → Bytes → Bytes → List Bytes → Db → List (Bytes × List FieldValue) × Db
  unfolding pop_key
  pop_keys tablename del_set stateprefix [] db = ([], db)
  pop_keys tablename del_set stateprefix (key ∷ ks) db =
      let (fieldvalues, db1) = pop_key tablename del_set stateprefix key db in
      let (ret, db2) = pop_keys tablename del_set stateprefix ks db1 in
      ((key, fieldvalues) ∷ ret, db2)

  unfoldable pub lua_pops :
      Bytes → Bytes → Bytes → ℕ → Bytes → Db → List (Bytes × List FieldValue) × Db
  unfolding pop_keys
  lua_pops key_set tablename del_set batch stateprefix db =
      let (ks, db1) = spop key_set batch db in pop_keys tablename del_set stateprefix ks db1
