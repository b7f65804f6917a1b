-- ===== src/StateTable/Held.antt =====
-- What Redis holds of a field of a table: the value in its row, and the view of it. How the scripts
-- change both, and that they lose nothing pending.
use sonic_swss_common.Prelude.Maybe.{◌>>=◌}
use sonic_swss_common.Prelude.{
  ℕ, ◌≢◌, Bool, List, [], ◌∷◌, Option, Bytes, bytes_eq, nat_eq, ◌≡◌, refl, arith, ap, ◌∙◌, eq_refl,
  lookup, codes,
}
use sonic_swss_common.Kco.{FieldValue, Kco, TableDump}
use sonic_swss_common.Redis.{Redis}
use sonic_swss_common.Redis.Loops.{hget-hset_all, sismember-hset_all}
use sonic_swss_common.StateTable.Names.{
  Table, IsNamed, row_name, state-state, state-row, key_set-del_set, del_set-key_set, state-key_set,
  state-del_set, channel_name,
}
use sonic_swss_common.StateTable.Scripts.{evalsha, lua_pub, lua_apply_view}
use sonic_swss_common.StateTable.Commands.{pend_set_all, pend_del_all}
use sonic_swss_common.StateTable.View.{view, pend_set, pend_del, hget-lua_pub, sismember-lua_pub}
use sonic_swss_common.StateTable.Delivery.{Tracked}
use sonic_swss_common.StateTable.TempView.{null, dump, changes, apply_args}
use sonic_swss_common.StateTable.Apply.{
  run_apply, cleared, hget-cleared_row, hget-cleared_state, sismember-cleared,
}
use sonic_swss_common.StateTable.Switch.{switched, row_kept, view-switched, switched-Tracked}
use sonic_swss_common.StateTable.Changes.{view-publish}
use sonic_swss_common.StateTable.Applied.{IsView}

pub record Held : Type 0 where
  pub row : Option Bytes
  pub value : Option Bytes

module _ (r : Redis) where
  open r use {
    Db, hget, sismember, publish, hget-sadd, sismember-sadd, hget-del, sismember-del, hget-publish,
    sismember-publish,
  }

  unfoldable pub held : Table → Bytes → Bytes → Db → Held
  held t j g db = record { row = hget (row_name t j) g db; value = view r t j g db }

  -- The script of `apply_temp_view` with the changes between what is there and a view.
  unfoldable pub apply_view : Table → ℕ → TableDump → Db → Db
  apply_view t db_id temp db =
      evalsha r (lua_apply_view r) (apply_args t db_id (changes (dump r t db) temp)) db

  module _ (t : Table) (n : IsNamed t) where
    pub hget-pend_set_row :
        (key : Bytes) (fvs : List FieldValue) (j g : Bytes) (db : Db)
        → hget (row_name t j) g (pend_set r t key fvs db) ≡ hget (row_name t j) g db
    unfolding pend_set
    hget-pend_set_row key fvs j g db = simp (hget-hset_all, hget-sadd, state-row t n)

    pub hget-pend_del_row :
        (key j g : Bytes) (db : Db)
        → hget (row_name t j) g (pend_del r t key db) ≡ hget (row_name t j) g db
    unfolding pend_del
    hget-pend_del_row key j g db = simp (hget-del, hget-sadd, state-row t n)

    pub hget-pend_set_all_row :
        (kcos : List Kco) (j g : Bytes) (db : Db)
        → hget (row_name t j) g (pend_set_all r t kcos db) ≡ hget (row_name t j) g db
    unfolding pend_set_all
    hget-pend_set_all_row [] j g db = refl
    hget-pend_set_all_row (kco ∷ kcos) j g db =
        hget-pend_set_all_row kcos j g _ ∙ hget-pend_set_row kco.key kco.fvs j g db

    pub hget-pend_del_all_row :
        (ks : List Bytes) (j g : Bytes) (db : Db)
        → hget (row_name t j) g (pend_del_all r t ks db) ≡ hget (row_name t j) g db
    unfolding pend_del_all
    hget-pend_del_all_row [] j g db = refl
    hget-pend_del_all_row (key ∷ ks) j g db =
        hget-pend_del_all_row ks j g _ ∙ hget-pend_del_row key j g db

    -- `clear` leaves the rows, and what they hold is then the view.
    pub view-cleared :
        (db_id : ℕ) (j g : Bytes) (db : Db)
        → view r t j g (cleared r t n db_id db) ≡ hget (row_name t j) g db
    unfolding view
    view-cleared db_id j g db = ground (
      arith,
      hget-cleared_state r t n db_id db j g,
      sismember-cleared r t n db_id db j,
      hget-cleared_row r t n db_id db j g,
    )

    pub cleared-Tracked : (db_id : ℕ) (db : Db) → Tracked r t (cleared r t n db_id db)
    cleared-Tracked db_id db = record {
      values = λ j g v h. ground (arith, hget-cleared_state r t n db_id db j g, h);
      deletions = λ j h. ground (arith, sismember-cleared r t n db_id db j, h);
    }

    pub pend_set-Tracked :
        (key : Bytes) (fvs : List FieldValue) (db : Db)
        → Tracked r t db
        → Tracked r t (pend_set r t key fvs db)
    unfolding pend_set
    pend_set-Tracked key fvs db tracked = record {
      values = λ j g v.
          simp (hget-hset_all, sismember-hset_all, hget-sadd, sismember-sadd, state-state, eq_refl)
            (ground (arith, tracked.values j g v));
      deletions = λ j.
          simp (sismember-hset_all, sismember-sadd, key_set-del_set, eq_refl)
            (ground (arith, tracked.deletions j));
    }

    pub pend_del-Tracked :
        (key : Bytes) (db : Db) → Tracked r t db → Tracked r t (pend_del r t key db)
    unfolding pend_del
    pend_del-Tracked key db tracked = record {
      values = λ j g v.
          simp
            (
              hget-del,
              sismember-del,
              hget-sadd,
              sismember-sadd,
              state-state,
              state-key_set t n,
              del_set-key_set,
              eq_refl,
            )
            (ground (arith, tracked.values j g v));
      deletions = λ j.
          simp
            (
              sismember-del,
              sismember-sadd,
              state-del_set t n,
              state-key_set t n,
              key_set-del_set,
              del_set-key_set,
              eq_refl,
            )
            (ground (arith, tracked.deletions j));
    }

    pub lua_pub-Tracked :
        (p : Bool) (k : ℕ) (c m : Bytes) (db : Db)
        → Tracked r t db
        → Tracked r t (lua_pub r p k c m db)
    lua_pub-Tracked p k c m db tracked = record {
      values = λ j g v. simp (hget-lua_pub, sismember-lua_pub) (tracked.values j g v);
      deletions = λ j. simp sismember-lua_pub (tracked.deletions j);
    }

    pub pend_set_all-Tracked :
        (kcos : List Kco) (db : Db) → Tracked r t db → Tracked r t (pend_set_all r t kcos db)
    unfolding pend_set_all
    pend_set_all-Tracked [] db h = h
    pend_set_all-Tracked (kco ∷ kcos) db h =
        pend_set_all-Tracked kcos _ (pend_set-Tracked kco.key kco.fvs db h)

    pub pend_del_all-Tracked :
        (ks : List Bytes) (db : Db) → Tracked r t db → Tracked r t (pend_del_all r t ks db)
    unfolding pend_del_all
    pend_del_all-Tracked [] db h = h
    pend_del_all-Tracked (key ∷ ks) db h = pend_del_all-Tracked ks _ (pend_del-Tracked key db h)

    publish-Tracked : (c m : Bytes) (db : Db) → Tracked r t db → Tracked r t (publish c m db)
    publish-Tracked c m db tracked = record {
      values = λ j g v. simp (hget-publish, sismember-publish) (tracked.values j g v);
      deletions = λ j. simp sismember-publish (tracked.deletions j);
    }

    module _ (db_id : ℕ) (temp : TableDump) (colon : t.separator ≡ codes ":")
        (is_view : IsView r temp) (db : Db) where
      abbrev start : Db
      start = cleared r t n db_id db

      abbrev made : Db
      made =
          switched r t n colon temp is_view.keys_once is_view.fields_once is_view.keyed start
            (hget-cleared_state r t n db_id db) (sismember-cleared r t n db_id db)

      runs : apply_view t db_id temp start ≡ publish (channel_name t db_id) (codes "G") made
      unfolding apply_view
      runs = run_apply r t db_id (changes (dump r t start) temp) start

      pub hget-applied_row :
          (j g : Bytes)
          → hget (row_name t j) g (apply_view t db_id temp start) ≡ hget (row_name t j) g db
      hget-applied_row j g =
          ap (hget (row_name t j) g) runs
          ∙ hget-publish (channel_name t db_id) (codes "G") (row_name t j) g made
          ∙ row_kept r t n colon temp is_view.keys_once is_view.fields_once is_view.keyed start
              (hget-cleared_state r t n db_id db) (sismember-cleared r t n db_id db) j g
          ∙ hget-cleared_row r t n db_id db j g

      pub view-applied :
          (j g : Bytes)
          → g ≢ null
          → view r t j g (apply_view t db_id temp start) ≡ (lookup j temp >>= lookup g)
      view-applied j g ne =
          ap (view r t j g) runs
          ∙ view-publish r t j g (channel_name t db_id) (codes "G") made
          ∙ view-switched r t n colon temp is_view.keys_once is_view.fields_once is_view.keyed start
              (hget-cleared_state r t n db_id db) (sismember-cleared r t n db_id db) j g ne

      pub applied-Tracked : Tracked r t (apply_view t db_id temp start)
      applied-Tracked = rw runs (
          publish-Tracked (channel_name t db_id) (codes "G") made (
            switched-Tracked r t n colon temp is_view.keys_once is_view.fields_once is_view.keyed
              start (hget-cleared_state r t n db_id db) (sismember-cleared r t n db_id db)))
