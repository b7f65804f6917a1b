-- ===== src/StateTable/Applied.antt =====
-- `apply_temp_view` of a producer, from the pipeline to the view of its table.
use sonic_swss_common.Prelude.Maybe.{◌>>=◌}
use sonic_swss_common.Prelude.{
  ◌≢◌, true, false, [], none, some, Bytes, bytes_eq, codes, lookup, Distinct, All, ◌≡◌, refl, ap,
  sym, ◌∙◌,
}
use sonic_swss_common.Kco.{TableMap, TableDump}
use sonic_swss_common.Redis.{Redis}
use sonic_swss_common.RedisPipeline
use sonic_swss_common.RedisPipeline.{Pipeline}
use sonic_swss_common.RedisPipeline.Settled.{see-flush, see-push, flush_settles}
use sonic_swss_common.StateTable.Names.{
  IsNamed, state_name, key_set_name, del_key_set_name, channel_name,
}
use sonic_swss_common.StateTable.View.{view}
use sonic_swss_common.StateTable.Scripts.{evalsha, lua_clear, lua_apply_view}
use sonic_swss_common.StateTable.Producer.{Producer, clear, clear_args}
use sonic_swss_common.StateTable.TempView.{null, dump, changes, apply_args, apply_temp_view}
use sonic_swss_common.StateTable.Apply.{run_apply, hget-cleared_state, sismember-cleared}
use sonic_swss_common.StateTable.Switch.{switched, view-switched, switched-Tracked}
use sonic_swss_common.StateTable.Changes.{now, view-publish}
use sonic_swss_common.StateTable.Delivery.{Tracked}

module _ (r : Redis) where
  open r use {Db, hget, sismember, publish, hget-publish, sismember-publish}

  -- The condition of a temporary view: it and its objects name a key and a field once, and no key is
  -- empty.
  pub record IsView (temp : TableDump) : Type 0 where
    pub keys_once : Distinct temp
    pub fields_once : All (λ (row : Bytes × TableMap). Distinct row.1) temp
    pub keyed : lookup [] temp ≡ none

  module _ (p : Producer r) (n : IsNamed p.table) (colon : p.table.separator ≡ codes ":")
      (active : p.temp_view_active ≡ true) (is_view : IsView p.temp_view_state) where
    cleared_pipe : Pipeline r
    cleared_pipe = RedisPipeline.flush r (clear r p).pipe

    see_cleared :
        {A : Type 0} (see : Db → A)
        → ((c m : Bytes) (db : Db) → see (publish c m db) ≡ see db)
        → see cleared_pipe.db ≡ see (evalsha r (lua_clear r) (clear_args p.table p.db_id) (now r p))
    unfolding cleared_pipe clear
    see_cleared see quiet =
        let cmd = evalsha r (lua_clear r) (clear_args p.table p.db_id) in
        let pushed = RedisPipeline.push r cmd p.pipe in
        ap see (sym (flush_settles r (RedisPipeline.flush r pushed)))
        ∙ see-flush r see quiet (RedisPipeline.flush r pushed)
        ∙ see-flush r see quiet pushed
        ∙ see-push r see quiet cmd p.pipe

    no_state : (j g : Bytes) → hget (state_name p.table j) g cleared_pipe.db ≡ none
    no_state j g =
        see_cleared (hget (state_name p.table j) g)
          (λ c m db. hget-publish c m (state_name p.table j) g db)
        ∙ hget-cleared_state r p.table n p.db_id (now r p) j g

    no_del : (j : Bytes) → sismember (del_key_set_name p.table) j cleared_pipe.db ≡ false
    no_del j =
        see_cleared (sismember (del_key_set_name p.table) j)
          (λ c m db. sismember-publish c m (del_key_set_name p.table) j db)
        ∙ sismember-cleared r p.table n p.db_id (now r p) j

    cleared_dump : TableDump
    cleared_dump = dump r p.table cleared_pipe.db

    apply_command : Db → Db
    apply_command =
        evalsha r (lua_apply_view r)
          (apply_args p.table p.db_id (changes (dump r p.table cleared_pipe.db) p.temp_view_state))

    applied : Producer r
    applied = record (clear r p) {
      pipe = RedisPipeline.flush r (RedisPipeline.push r apply_command cleared_pipe);
      temp_view_active = false;
      temp_view_state = [];
    }

    apply_temp_view-applied : apply_temp_view r p ≡ some applied
    unfolding apply_temp_view RedisPipeline.push_reply applied cleared_pipe apply_command
    apply_temp_view-applied = rw active

    abbrev made : Db
    made =
        switched r p.table n colon p.temp_view_state is_view.keys_once is_view.fields_once
          is_view.keyed cleared_pipe.db no_state no_del

    settles : RedisPipeline.settled r cleared_pipe ≡ cleared_pipe.db
    unfolding cleared_pipe
    settles = flush_settles r (clear r p).pipe

    runs : apply_command cleared_pipe.db ≡ publish (channel_name p.table p.db_id) (codes "G") made
    unfolding apply_command
    runs =
        run_apply r p.table p.db_id (changes (dump r p.table cleared_pipe.db) p.temp_view_state)
          cleared_pipe.db

    see_applied :
        {A : Type 0} (see : Db → A)
        → ((c m : Bytes) (db : Db) → see (publish c m db) ≡ see db)
        → see (now r applied) ≡ see made
    unfolding applied
    see_applied see quiet =
        see-flush r see quiet (RedisPipeline.push r apply_command cleared_pipe)
        ∙ see-push r see quiet apply_command cleared_pipe
        ∙ ap (λ db. see (apply_command db)) settles
        ∙ ap see runs
        ∙ quiet (channel_name p.table p.db_id) (codes "G") made

    viewed :
        (j g : Bytes)
        → g ≢ null
        → view r p.table j g (now r applied) ≡ (lookup j p.temp_view_state >>= lookup g)
    viewed j g ne =
        see_applied (view r p.table j g) (view-publish r p.table j g)
        ∙ view-switched r p.table n colon p.temp_view_state is_view.keys_once is_view.fields_once
            is_view.keyed cleared_pipe.db no_state no_del j g ne

    tracked : Tracked r p.table (now r applied)
    tracked =
        let made-Tracked =
          switched-Tracked r p.table n colon p.temp_view_state is_view.keys_once is_view.fields_once
            is_view.keyed cleared_pipe.db no_state no_del in
        let see_field = λ (j g : Bytes).
          see_applied (hget (state_name p.table j) g)
            (λ c m db. hget-publish c m (state_name p.table j) g db) in
        let see_member =
          λ (k j : Bytes). see_applied (sismember k j) (λ c m db. sismember-publish c m k j db) in
        record {
          values = λ j g v h.
              see_member (key_set_name p.table) j
              ∙ made-Tracked.values j g v (sym (see_field j g) ∙ h);
          deletions = λ j h.
              see_member (key_set_name p.table) j
              ∙ made-Tracked.deletions j (sym (see_member (del_key_set_name p.table) j) ∙ h);
        }

    -- With a temporary view active, `apply_temp_view` returns and ends it. The table's view is then
    -- the temporary view, field by field, but for the field "NULL" that stands for an empty row, and
    -- every key with a change is in the set that consumers pop from. What was in the table, pending or
    -- not, and in the pipeline does not matter. The separator must be a colon, the table's name without
    -- it, and the temporary view must name keys and fields once and have no empty key.
    pub view-apply_temp_view :
        (q : Producer r) × ((apply_temp_view r p ≡ some q)
          × (q.temp_view_active ≡ false)
          × Tracked r p.table (now r q)
          × ((j g : Bytes)
              → g ≢ null
              → view r p.table j g (now r q) ≡ (lookup j p.temp_view_state >>= lookup g)))
    unfolding applied
    view-apply_temp_view = (applied, (apply_temp_view-applied, refl, tracked, viewed))
