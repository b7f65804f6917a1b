-- ===== src/StateTable/Delivery.antt =====
-- What a consumer gets by a pop, and what it leaves in Redis.
use sonic_swss_common.Prelude.{
  ◌<◌, true, false, List, none, some, Bytes, bytes_eq, nat_eq, ◌≡◌, refl, arith, if◌then◌else◌, map,
  ◌∙◌, eq_refl, contains, inl, inr, length, Option-cases,
}
use sonic_swss_common.Redis.{Redis}
use sonic_swss_common.StateTable.Names.{
  Table, IsNamed, row_name, state_name, key_set_name, del_key_set_name, key_set-del_set,
}
use sonic_swss_common.StateTable.Scripts.{lua_pops}
use sonic_swss_common.StateTable.View.{view}
use sonic_swss_common.StateTable.Consumer.{Consumer, popped_kco, pops}
use sonic_swss_common.StateTable.Pops.{
  rounds, view-rounds, hget-rounds-state, hget-rounds-row, sismember-rounds,
  sismember-rounds-key_set,
}

module _ (r : Redis) where
  open r use {
    Db, hgetall, hget, sismember, spop, spop-sismember, spop_all, hget-spop, sismember-spop,
  }

  -- Whatever is pending for a key, the key is in the set that the consumer pops from.
  pub record Tracked (t : Table) (db : Db) : Type 0 where
    pub values :
        (j g v : Bytes)
        → hget (state_name t j) g db ≡ some v
        → sismember (key_set_name t) j db ≡ true
    pub deletions :
        (j : Bytes)
        → sismember (del_key_set_name t) j db ≡ true
        → sismember (key_set_name t) j db ≡ true

  module _ (c : Consumer) (n : IsNamed c.table) (db : Db) where
    -- The keys that the script pops, and the database behind SPOP.
    abbrev pub popped : List Bytes
    popped = (spop (key_set_name c.table) c.pop_batch_size db).0

    abbrev behind : Db
    behind = (spop (key_set_name c.table) c.pop_batch_size db).1

    pops-rounds :
        pops r c db
        ≡ (map popped_kco (rounds r c.table popped behind).0, (rounds r c.table popped behind).1)
    unfolding pops lua_pops
    pops-rounds = refl

    view-behind : (j g : Bytes) → view r c.table j g behind ≡ view r c.table j g db
    unfolding view
    view-behind j g = simp (hget-spop, sismember-spop, key_set-del_set)

    -- A pop changes no view.
    pub view-pops : (j g : Bytes) → view r c.table j g (pops r c db).1 ≡ view r c.table j g db
    view-pops j g = rw pops-rounds (view-rounds r c.table n popped j g behind ∙ view-behind j g)

    -- After a pop the row of a key that was popped holds the values of the view, each field of it,
    -- and every other row of the table holds what it held. The table's separator must be one byte,
    -- a colon or a bar, that its name does not have.
    pub hget-pops-row :
        (j g : Bytes)
        → hget (row_name c.table j) g (pops r c db).1
          ≡ (if contains popped j then view r c.table j g db else hget (row_name c.table j) g db)
    hget-pops-row j g = rw pops-rounds (
        ground (
          arith,
          hget-rounds-row r c.table n popped j g behind,
          view-behind j g,
          hget-spop (key_set_name c.table) c.pop_batch_size (row_name c.table j) g db,
        ))

    pub hget-pops-state :
        (j g : Bytes)
        → hget (state_name c.table j) g (pops r c db).1
          ≡ (if contains popped j then none else hget (state_name c.table j) g db)
    hget-pops-state j g = rw pops-rounds (
        ground (
          arith,
          hget-rounds-state r c.table n popped j g behind,
          hget-spop (key_set_name c.table) c.pop_batch_size (state_name c.table j) g db,
        ))

    pub sismember-pops :
        (j : Bytes)
        → sismember (del_key_set_name c.table) j (pops r c db).1
          ≡ (if contains popped j then false else sismember (del_key_set_name c.table) j db)
    sismember-pops j = rw pops-rounds (
        ground (
          arith,
          sismember-rounds r c.table n popped j behind,
          sismember-spop (key_set_name c.table) c.pop_batch_size (del_key_set_name c.table) j db,
          key_set-del_set c.table,
        ))

    pub sismember-pops-key_set :
        (j : Bytes)
        → sismember (key_set_name c.table) j (pops r c db).1
          ≡ (if contains popped j then false else sismember (key_set_name c.table) j db)
    sismember-pops-key_set j = rw pops-rounds (
        ground (
          arith,
          sismember-rounds-key_set r c.table n popped j behind,
          sismember-spop (key_set_name c.table) c.pop_batch_size (key_set_name c.table) j db,
          eq_refl (key_set_name c.table),
        ))

    pub pops-Tracked : Tracked c.table db → Tracked c.table (pops r c db).1
    pops-Tracked tracked = record {
      values = λ j g v h.
          ground (arith, hget-pops-state j g, sismember-pops-key_set j, tracked.values j g v);
      deletions =
          λ j h. ground (arith, sismember-pops j, sismember-pops-key_set j, tracked.deletions j);
    }

    -- After a pop of fewer keys than the batch size nothing is pending any more.
    module _ (tracked : Tracked c.table db) (fewer : length popped < c.pop_batch_size) where
      drained_set : (j : Bytes) → sismember (key_set_name c.table) j (pops r c db).1 ≡ false
      drained_set j = ground (
        arith,
        sismember-pops-key_set j,
        spop_all (key_set_name c.table) c.pop_batch_size j db fewer,
      )

      drained_state : (j g : Bytes) → hget (state_name c.table j) g (pops r c db).1 ≡ none
      drained_state j g = elim (Option-cases (hget (state_name c.table j) g (pops r c db).1)) [
        | inl e ↦ e
        | inr (v, e) ↦ ground (arith, (pops-Tracked tracked).values j g v e, drained_set j)
      ]

      drained_deletion :
          (j : Bytes) → sismember (del_key_set_name c.table) j (pops r c db).1 ≡ false
      drained_deletion j = ground (arith, (pops-Tracked tracked).deletions j, drained_set j)

      -- Every row of the table then holds what the view says.
      pub drained_row :
          (j g : Bytes) → hget (row_name c.table j) g (pops r c db).1 ≡ view r c.table j g db
      drained_row j g =
          let same : hget (row_name c.table j) g (pops r c db).1
              ≡ view r c.table j g (pops r c db).1 =
            unfold view in ground (arith, drained_state j g, drained_deletion j) in
          same ∙ view-pops j g
