-- ===== src/StateTable/Runs.antt =====
-- What Redis runs for a table, and what it means to the fields.
use sonic_swss_common.Prelude.Maybe.{◌>>=◌}
use sonic_swss_common.Prelude.{
  ℕ, ◌≢◌, Bool, List, [], none, Bytes, bytes_eq, nat_eq, ◌==◌, ◌≡◌, if◌then◌else◌, ap, ◌∙◌,
  contains, lookup, codes,
}
use sonic_swss_common.Kco.{FieldValue, Kco, TableDump}
use sonic_swss_common.Redis.{Redis}
use sonic_swss_common.Redis.Loops.{last_value, or_else}
use sonic_swss_common.StateTable.Names.{Table, IsNamed, row_name, state_name, key_name-row_name}
use sonic_swss_common.StateTable.Scripts.{
  evalsha, lua_set, lua_del, lua_batched_set, lua_batched_del, lua_clear,
}
use sonic_swss_common.StateTable.Producer.{
  set_args, del_args, batched_set_args, batched_del_args, clear_args,
}
use sonic_swss_common.StateTable.Consumer.{pops}
use sonic_swss_common.StateTable.TempView.{null}
use sonic_swss_common.StateTable.Commands.{run_set, run_del, run_batched_set, run_batched_del}
use sonic_swss_common.StateTable.View.{
  view, pend_set, pend_del, view-pend_set, view-pend_del, view-lua_pub, hget-lua_pub,
}
use sonic_swss_common.StateTable.Delivery.{Tracked, pops-Tracked, view-pops, hget-pops-row, popped}
use sonic_swss_common.StateTable.Changes.{put_kcos, view-pend_set_all, view-pend_del_all}
use sonic_swss_common.StateTable.Apply.{hget-cleared_row}
use sonic_swss_common.StateTable.Applied.{IsView}
use sonic_swss_common.StateTable.Held.{
  Held, held, apply_view, hget-pend_set_row, hget-pend_del_row, hget-pend_set_all_row,
  hget-pend_del_all_row, view-cleared, cleared-Tracked, pend_set-Tracked, pend_del-Tracked,
  lua_pub-Tracked, pend_set_all-Tracked, pend_del_all-Tracked, hget-applied_row, view-applied,
  applied-Tracked,
}

-- What Redis runs for a table: the script of an operation of a producer (which publishes or not),
-- the script of `clear`, what `apply_temp_view` runs for a temporary view, or a pop with a batch size.
pub data Event : Type 0 where
  sets : Bool → Bytes → List FieldValue → Event
  dels : Bool → Bytes → Event
  sets_all : Bool → List Kco → Event
  dels_all : Bool → List Bytes → Event
  clears : Event
  applies : TableDump → Event
  pop : ℕ → Event

same_held : (a b : Held) → a.row ≡ b.row → a.value ≡ b.value → a ≡ b
same_held a b row value = cc

-- What an event means to a field of a key, `got` being the keys that a pop hands to the consumer: a
-- set merges fields, a del removes them all, `clear` abandons what is not in the row yet, a temporary
-- view replaces everything, and a pop moves the values of its keys into the rows.
unfoldable pub meant : Event → List Bytes → Bytes → Bytes → Held → Held
unfolding put_kcos
meant (sets _ key fvs) got j g old = record old {
  value = if key == j then or_else (last_value g fvs) old.value else old.value;
}
meant (dels _ key) got j g old = record old { value = if key == j then none else old.value }
meant (sets_all _ kcos) got j g old = record old { value = put_kcos kcos j g old.value }
meant (dels_all _ ks) got j g old = record old { value = if contains ks j then none else old.value }
meant clears got j g old = record old { value = old.row }
meant (applies temp) got j g old = record old { value = lookup j temp >>= lookup g }
meant (pop _) got j g old = record old { row = if contains got j then old.value else old.row }

-- The field "NULL" of an empty row is not seen by `apply_temp_view`.
abbrev pub IsSeen : Bytes → Event → Type 0
IsSeen g (applies _) = g ≢ null
IsSeen g _ = Unit

module _ (r : Redis) where
  open r use {Db, hget}

  -- A single operation has a key that is not empty. `apply_temp_view` is for a table whose separator
  -- is a colon, and its view names keys and fields once and has no empty key.
  abbrev pub Fits : Table → Event → Type 0
  Fits t (sets _ key _) = key ≢ []
  Fits t (dels _ key) = key ≢ []
  Fits t (applies temp) = (t.separator ≡ codes ":") × IsView r temp
  Fits t _ = Unit

  unfoldable pub run_event : Table → ℕ → Event → Db → Db
  unfolding apply_view
  run_event t db_id (sets p key fvs) db = evalsha r (lua_set r p) (set_args t db_id key fvs) db
  run_event t db_id (dels p key) db = evalsha r (lua_del r p) (del_args t db_id key) db
  run_event t db_id (sets_all p kcos) db =
      evalsha r (lua_batched_set r p) (batched_set_args t db_id kcos) db
  run_event t db_id (dels_all p ks) db =
      evalsha r (lua_batched_del r p) (batched_del_args t db_id ks) db
  run_event t db_id clears db = evalsha r (lua_clear r) (clear_args t db_id) db
  run_event t db_id (applies temp) db =
      apply_view r t db_id temp (evalsha r (lua_clear r) (clear_args t db_id) db)
  run_event t db_id (pop batch) db = (pops r (record { table = t; pop_batch_size = batch }) db).1

  module _ (t : Table) (n : IsNamed t) (db_id : ℕ) where
    -- The keys that an event hands to the consumer.
    unfoldable pub handed : Event → Db → List Bytes
    handed (pop batch) db = popped r (record { table = t; pop_batch_size = batch }) n db
    handed _ db = []

    pub run_event-Tracked :
        (e : Event) (db : Db) → Fits t e → Tracked r t db → Tracked r t (run_event t db_id e db)
    unfolding run_event
    run_event-Tracked (sets p key fvs) db k h =
        rw (run_set r p t db_id key fvs db, key_name-row_name t key k)
          (lua_pub-Tracked r t n p _ _ _ _
            (unfold pend_set state_name in pend_set-Tracked r t n key fvs db h))
    run_event-Tracked (dels p key) db k h =
        rw (run_del r p t db_id key db, key_name-row_name t key k)
          (lua_pub-Tracked r t n p _ _ _ _
            (unfold pend_del state_name in pend_del-Tracked r t n key db h))
    run_event-Tracked (sets_all p kcos) db k h =
        let (added, e) = run_batched_set r p t db_id kcos db in
        rw e (lua_pub-Tracked r t n p added _ _ _ (pend_set_all-Tracked r t n kcos db h))
    run_event-Tracked (dels_all p ks) db k h =
        let (added, e) = run_batched_del r p t db_id ks db in
        rw e (lua_pub-Tracked r t n p added _ _ _ (pend_del_all-Tracked r t n ks db h))
    run_event-Tracked clears db k h = cleared-Tracked r t n db_id db
    run_event-Tracked (applies temp) db (colon, v) h = applied-Tracked r t n db_id temp colon v db
    run_event-Tracked (pop batch) db k h =
        pops-Tracked r (record { table = t; pop_batch_size = batch }) n db h

    view-run_event :
        (e : Event) (j g : Bytes) (db : Db)
        → Fits t e
        → IsSeen g e
        → view r t j g (run_event t db_id e db)
          ≡ (meant e (handed e db) j g (held r t j g db)).value
    unfolding run_event meant handed held
    view-run_event (sets p key fvs) j g db h seen =
        rw (run_set r p t db_id key fvs db, key_name-row_name t key h)
          (view-lua_pub r t _ _ _ _ j g _
            ∙ (unfold pend_set state_name in view-pend_set r t n key fvs j g db))
    view-run_event (dels p key) j g db h seen =
        rw (run_del r p t db_id key db, key_name-row_name t key h)
          (view-lua_pub r t _ _ _ _ j g _
            ∙ (unfold pend_del state_name in view-pend_del r t n key j g db))
    view-run_event (sets_all p kcos) j g db h seen =
        let (added, e) = run_batched_set r p t db_id kcos db in
        ap (view r t j g) e
        ∙ view-lua_pub r t _ added _ _ j g _
        ∙ view-pend_set_all r t n kcos j g db
    view-run_event (dels_all p ks) j g db h seen =
        let (added, e) = run_batched_del r p t db_id ks db in
        ap (view r t j g) e ∙ view-lua_pub r t _ added _ _ j g _ ∙ view-pend_del_all r t n ks j g db
    view-run_event clears j g db h seen = view-cleared r t n db_id j g db
    view-run_event (applies temp) j g db (colon, v) seen =
        view-applied r t n db_id temp colon v db j g seen
    view-run_event (pop batch) j g db h seen =
        view-pops r (record { table = t; pop_batch_size = batch }) n db j g

    row-run_event :
        (e : Event) (j g : Bytes) (db : Db)
        → Fits t e
        → hget (row_name t j) g (run_event t db_id e db)
          ≡ (meant e (handed e db) j g (held r t j g db)).row
    unfolding run_event meant handed held
    row-run_event (sets p key fvs) j g db h =
        rw (run_set r p t db_id key fvs db, key_name-row_name t key h)
          (hget-lua_pub r _ _ _ _ (row_name t j) g _
            ∙ (unfold pend_set state_name in hget-pend_set_row r t n key fvs j g db))
    row-run_event (dels p key) j g db h =
        rw (run_del r p t db_id key db, key_name-row_name t key h)
          (hget-lua_pub r _ _ _ _ (row_name t j) g _
            ∙ (unfold pend_del state_name in hget-pend_del_row r t n key j g db))
    row-run_event (sets_all p kcos) j g db h =
        let (added, e) = run_batched_set r p t db_id kcos db in
        ap (hget (row_name t j) g) e
        ∙ hget-lua_pub r _ added _ _ (row_name t j) g _
        ∙ hget-pend_set_all_row r t n kcos j g db
    row-run_event (dels_all p ks) j g db h =
        let (added, e) = run_batched_del r p t db_id ks db in
        ap (hget (row_name t j) g) e
        ∙ hget-lua_pub r _ added _ _ (row_name t j) g _
        ∙ hget-pend_del_all_row r t n ks j g db
    row-run_event clears j g db h = hget-cleared_row r t n db_id db j g
    row-run_event (applies temp) j g db (colon, v) =
        hget-applied_row r t n db_id temp colon v db j g
    row-run_event (pop batch) j g db h =
        hget-pops-row r (record { table = t; pop_batch_size = batch }) n db j g

    pub held-run_event :
        (e : Event) (j g : Bytes) (db : Db)
        → Fits t e
        → IsSeen g e
        → held r t j g (run_event t db_id e db) ≡ meant e (handed e db) j g (held r t j g db)
    held-run_event e j g db h seen =
        unfold held in same_held _ _ (row-run_event e j g db h) (view-run_event e j g db h seen)
