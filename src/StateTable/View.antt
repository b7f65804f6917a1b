-- ===== src/StateTable/View.antt =====
-- The abstract view of a table: the values that its keys have once the consumer has taken over what
-- is pending. Producers' scripts change the view as the caller asks; a consumer's pop keeps it.
use sonic_swss_common.Prelude.{
  ℕ, Bool, List, Option, none, Bytes, bytes_eq, ◌==◌, ◌≡◌, arith, if◌then◌else◌, eq_refl,
}
use sonic_swss_common.Kco.{FieldValue}
use sonic_swss_common.Redis.{Redis}
use sonic_swss_common.Redis.Loops.{hset_all, hget-hset_all, sismember-hset_all, last_value, or_else}
use sonic_swss_common.StateTable.Names.{
  Table, IsNamed, row_name, state_name, key_set_name, del_key_set_name, state-state, state-row,
  state-del_set, key_set-del_set,
}
use sonic_swss_common.StateTable.Scripts.{lua_pub}

module _ (r : Redis) where
  open r use {
    Db, hget, sismember, published, hset, sadd, del, publish, hget-publish, sismember-publish,
    hget-sadd, sismember-sadd, hget-del, sismember-del,
  }

  -- The value of field `g` of key `j`.
  unfoldable pub view : Table → Bytes → Bytes → Db → Option Bytes
  view t j g db =
      or_else (hget (state_name t j) g db)
        (if sismember (del_key_set_name t) j db then none else hget (row_name t j) g db)

  pub hget-lua_pub :
      (p : Bool) (n : ℕ) (c m j g : Bytes) (db : Db) → hget j g (lua_pub r p n c m db) ≡ hget j g db
  unfolding lua_pub
  hget-lua_pub p n c m j g db = ground (arith, hget-publish c m j g db)

  pub sismember-lua_pub :
      (p : Bool) (n : ℕ) (c m j k : Bytes) (db : Db)
      → sismember j k (lua_pub r p n c m db) ≡ sismember j k db
  unfolding lua_pub
  sismember-lua_pub p n c m j k db = ground (arith, sismember-publish c m j k db)

  pub view-lua_pub :
      (t : Table) (p : Bool) (n : ℕ) (c m j g : Bytes) (db : Db)
      → view t j g (lua_pub r p n c m db) ≡ view t j g db
  unfolding view
  view-lua_pub t p n c m j g db = simp (hget-lua_pub, sismember-lua_pub)

  -- What a script does for one key, the notification aside.
  unfoldable pub pend_set : Table → Bytes → List FieldValue → Db → Db
  pend_set t key fvs db = hset_all r (state_name t key) fvs (sadd (key_set_name t) key db).1

  unfoldable pub pend_del : Table → Bytes → Db → Db
  pend_del t key db =
      del (state_name t key) (sadd (del_key_set_name t) key (sadd (key_set_name t) key db).1).1

  module _ (t : Table) (n : IsNamed t) where
    pub view-pend_set :
        (key : Bytes) (fvs : List FieldValue) (j g : Bytes) (db : Db)
        → view t j g (pend_set t key fvs db)
          ≡ (if key == j then or_else (last_value g fvs) (view t j g db) else view t j g db)
    unfolding view pend_set
    view-pend_set key fvs j g db =
        simp
          (
            hget-hset_all,
            sismember-hset_all,
            hget-sadd,
            sismember-sadd,
            state-state,
            state-row t n,
            key_set-del_set,
          )
          (ground arith)

    pub view-pend_del :
        (key j g : Bytes) (db : Db)
        → view t j g (pend_del t key db) ≡ (if key == j then none else view t j g db)
    unfolding view pend_del
    view-pend_del key j g db =
        simp
          (
            hget-del,
            sismember-del,
            hget-sadd,
            sismember-sadd,
            state-state,
            state-row t n,
            key_set-del_set,
            state-del_set t n,
            eq_refl,
          )
          (ground arith)
