-- ===== src/StateTable/Pop.antt =====
-- One round of the consumer's script: the row takes the values of the view, and no view changes.
use sonic_swss_common.Prelude.{
  ℕ, Bool, true, false, ◌&&◌, List, ◌++◌, none, Bytes, bytes_eq, nat_eq, ◌==◌, ◌≡◌, refl, arith,
  if◌then◌else◌, ◌∙◌, append_assoc, eq_iff, eq_refl, lookup,
}
use sonic_swss_common.Kco.{FieldValue}
use sonic_swss_common.Redis.{Redis}
use sonic_swss_common.Redis.Loops.{
  hset_all, hget-hset_all, sismember-hset_all, last_value, last_value-lookup,
}
use sonic_swss_common.StateTable.Names.{
  Table, IsNamed, row_name, state_name, state_hash_prefix, key_set_name, del_key_set_name, row-row,
  state-state, state-row, row-state, row-key_set, row-del_set, state-key_set, state-del_set,
  del_set-key_set,
}
use sonic_swss_common.StateTable.Scripts.{pop_key}
use sonic_swss_common.StateTable.View.{view}

one_reply : (b : Bool) → (let n : ℕ = if b then 1 else 0 in n == 1) ≡ b
one_reply true = refl
one_reply false = refl

module _ (r : Redis) where
  open r use {
    Db, hgetall, hget, sismember, published, hset, sadd, srem, del, publish, hget-publish,
    sismember-publish, hget-sadd, sismember-sadd, hget-del, sismember-del, hget-srem,
    sismember-srem, srem_reply, lookup-hgetall, hgetall-Distinct,
  }

  last_value-hgetall : (k f : Bytes) (db : Db) → last_value f (hgetall k db) ≡ hget k f db
  last_value-hgetall k f db =
      last_value-lookup f (hgetall k db) (hgetall-Distinct k db) ∙ lookup-hgetall k f db

  -- The script's round with the names put together.
  cleared : Table → Bytes → Db → Db
  cleared t key db =
      let db1 = (srem (del_key_set_name t) key db).1 in
      if sismember (del_key_set_name t) key db then del (row_name t key) db1 else db1

  pop_one : Table → Bytes → Db → Db
  unfolding cleared
  pop_one t key db =
      let db2 = cleared t key db in
      del (state_name t key) (hset_all r (row_name t key) (hgetall (state_name t key) db2) db2)

  -- The script's round in the table `t`.
  abbrev pub round : Table → Bytes → Db → List FieldValue × Db
  round t key = pop_key r (t.table_name ++ t.separator) (del_key_set_name t) state_hash_prefix key

  round_lem :
      (t : Table) (key : Bytes) (db : Db)
      → round t key db ≡ (hgetall (state_name t key) (cleared t key db), pop_one t key db)
  unfolding pop_key pop_one cleared row_name state_name
  round_lem t key db = simp (append_assoc, srem_reply, one_reply) (refl)

  module _ (t : Table) (n : IsNamed t) (key : Bytes) (db : Db) where
    hget-cleared-state :
        (j g : Bytes) → hget (state_name t j) g (cleared t key db) ≡ hget (state_name t j) g db
    unfolding cleared
    hget-cleared-state j g = ground (
      arith,
      hget-del (row_name t key) (state_name t j) g (srem (del_key_set_name t) key db).1,
      hget-srem (del_key_set_name t) key (state_name t j) g db,
      row-state t n key j,
    )

    hget-cleared-row :
        (j g : Bytes)
        → hget (row_name t j) g (cleared t key db) ≡ (
            if (key == j) && sismember (del_key_set_name t) key db
            then none
            else hget (row_name t j) g db)
    unfolding cleared
    hget-cleared-row j g = ground (
      arith,
      hget-del (row_name t key) (row_name t j) g (srem (del_key_set_name t) key db).1,
      hget-srem (del_key_set_name t) key (row_name t j) g db,
      row-row t key j,
    )

    sismember-cleared :
        (j : Bytes)
        → sismember (del_key_set_name t) j (cleared t key db)
          ≡ (if key == j then false else sismember (del_key_set_name t) j db)
    unfolding cleared
    sismember-cleared j = ground (
      arith,
      sismember-del (row_name t key) (del_key_set_name t) j (srem (del_key_set_name t) key db).1,
      sismember-srem (del_key_set_name t) key (del_key_set_name t) j db,
      row-del_set t n key,
      eq_refl (del_key_set_name t),
    )

    hget-pop_one-state :
        (j g : Bytes)
        → hget (state_name t j) g (pop_one t key db)
          ≡ (if key == j then none else hget (state_name t j) g db)
    unfolding pop_one
    hget-pop_one-state j g =
        simp (hget-del, hget-hset_all, state-state, row-state t n, hget-cleared-state)

    -- The popped row takes the values of the view.
    hget-pop_one-row :
        (j g : Bytes)
        → hget (row_name t j) g (pop_one t key db)
          ≡ (if key == j then view r t j g db else hget (row_name t j) g db)
    unfolding pop_one
    hget-pop_one-row j g =
        simp
          (
            hget-del,
            hget-hset_all,
            row-row,
            state-row t n,
            last_value-hgetall,
            hget-cleared-state,
            hget-cleared-row,
          )
          (unfold view in ground (arith, eq_iff key j))

    sismember-pop_one :
        (j : Bytes)
        → sismember (del_key_set_name t) j (pop_one t key db)
          ≡ (if key == j then false else sismember (del_key_set_name t) j db)
    unfolding pop_one
    sismember-pop_one j =
        simp (sismember-del, sismember-hset_all, state-del_set t n, sismember-cleared)

    view-pop_one : (j g : Bytes) → view r t j g (pop_one t key db) ≡ view r t j g db
    unfolding view
    view-pop_one j g = simp (hget-pop_one-state, hget-pop_one-row, sismember-pop_one) (ground arith)

    sismember-pop_one-key_set :
        (j : Bytes)
        → sismember (key_set_name t) j (pop_one t key db) ≡ sismember (key_set_name t) j db
    unfolding pop_one cleared
    sismember-pop_one-key_set j =
        simp (sismember-del, sismember-hset_all, state-key_set t n)
          (ground (
            arith,
            sismember-del (row_name t key) (key_set_name t) j (srem (del_key_set_name t) key db).1,
            sismember-srem (del_key_set_name t) key (key_set_name t) j db,
            row-key_set t n key,
            del_set-key_set t,
          ))

    pub hget-round-state :
        (j g : Bytes)
        → hget (state_name t j) g (round t key db).1
          ≡ (if key == j then none else hget (state_name t j) g db)
    hget-round-state j g = rw (round_lem t key db) (hget-pop_one-state j g)

    pub hget-round-row :
        (j g : Bytes)
        → hget (row_name t j) g (round t key db).1
          ≡ (if key == j then view r t j g db else hget (row_name t j) g db)
    hget-round-row j g = rw (round_lem t key db) (hget-pop_one-row j g)

    pub sismember-round :
        (j : Bytes)
        → sismember (del_key_set_name t) j (round t key db).1
          ≡ (if key == j then false else sismember (del_key_set_name t) j db)
    sismember-round j = rw (round_lem t key db) (sismember-pop_one j)

    pub sismember-round-key_set :
        (j : Bytes)
        → sismember (key_set_name t) j (round t key db).1 ≡ sismember (key_set_name t) j db
    sismember-round-key_set j = rw (round_lem t key db) (sismember-pop_one-key_set j)

    pub view-round : (j g : Bytes) → view r t j g (round t key db).1 ≡ view r t j g db
    view-round j g = rw (round_lem t key db) (view-pop_one j g)

    -- What the script replies for the key: the values that were pending.
    pub lookup-round : (g : Bytes) → lookup g (round t key db).0 ≡ hget (state_name t key) g db
    lookup-round g =
        rw (round_lem t key db) (lookup-hgetall (state_name t key) g _ ∙ hget-cleared-state key g)
