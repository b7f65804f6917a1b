-- ===== src/StateTable/ViewExamples.antt =====
-- Tests of temporary views on the Redis in memory, and their theorem at a concrete input.
use sonic_swss_common.Prelude.Maybe.{◌>>=◌}
use sonic_swss_common.Prelude.{
  true, false, [], ◌∷◌, none, some, Bytes, bytes_eq, codes, lookup, insert, erase, contains,
  starts_with, bytes_beq, ◌≢◌, ◌≡◌, refl, arith, inl,
}
use sonic_swss_common.Kco.{TableMap, TableDump}
use sonic_swss_common.Redis.Loops.{del_all}
use sonic_swss_common.Redis.Memory.{Memory, del}
use sonic_swss_common.Redis.Model.{memory_redis, hget, hgetall, keys}
use sonic_swss_common.StateTable.Scripts.{evalsha, lua_clear}
use sonic_swss_common.StateTable.Names.{Table, IsNamed, key_set_name}
use sonic_swss_common.StateTable.Producer.{Producer, clear_args}
use sonic_swss_common.StateTable.TempView.{
  null, apply_temp_view, changes, dump, dump_rows, strip_null, compare_objects, compare_object,
  need_del, need_set, compare_fields, new_keys,
}
use sonic_swss_common.StateTable.View.{view}
use sonic_swss_common.StateTable.Delivery.{Tracked}
use sonic_swss_common.StateTable.Changes.{now}
use sonic_swss_common.StateTable.Applied.{IsView, view-apply_temp_view}

abbrev routes : Table
routes = record { table_name = codes "R"; separator = codes ":" }

routes-IsNamed : IsNamed routes
routes-IsNamed = record { sep = b':'; single = refl; free = omega arith; legal = inl refl }

abbrev nexthop : Bytes → TableMap
nexthop v = (codes "nh", v) ∷ []

-- One route is kept, one is changed, and one is gone in the temporary view.
abbrev before : Memory
before = record {
  hashes =
      (codes "R:a", nexthop (codes "1"))
      ∷ (codes "R:b", nexthop (codes "2"))
      ∷ (codes "R:c", nexthop (codes "3"))
      ∷ [];
  sets = [];
  log = [];
}

abbrev target : TableDump
target =
    (codes "a", nexthop (codes "1"))
    ∷ (codes "b", nexthop (codes "9"))
    ∷ (codes "d", nexthop (codes "4"))
    ∷ []

target-IsView : IsView memory_redis target
target-IsView = record {
  keys_once = unfold lookup bytes_beq in (refl, (refl, (refl, tt)));
  fields_once = unfold lookup in ((refl, tt), ((refl, tt), ((refl, tt), tt)));
  keyed = unfold lookup bytes_beq in refl;
}

changes_test : changes (dump memory_redis routes before) target ≡ record {
  keys_to_set = codes "b" ∷ codes "c" ∷ codes "d" ∷ [];
  keys_to_del = codes "c" ∷ [];
  temp = (codes "b", nexthop (codes "9")) ∷ (codes "d", nexthop (codes "4")) ∷ [];
}
unfolding changes compare_objects compare_object need_del need_set compare_fields new_keys dump
    dump_rows keys hgetall lookup insert erase contains bytes_beq starts_with strip_null
changes_test = refl

-- A table whose separator is not a colon is dumped as if it were empty.
bar_test :
    dump memory_redis
      (record { table_name = codes "S"; separator = codes "|" })
      (record { hashes = (codes "S|a", nexthop (codes "1")) ∷ []; sets = []; log = [] })
    ≡ []
unfolding dump keys bytes_beq starts_with
bar_test = refl

abbrev producer : Producer memory_redis
producer = record {
  table = routes;
  db_id = 0;
  flush_pub = false;
  buffered = true;
  temp_view_active = true;
  temp_view_state = target;
  pipe = record { command_max = 128; queued = []; channels = []; db = before };
}

view-apply_temp_view_example :
    (q : Producer memory_redis) × ((apply_temp_view memory_redis producer ≡ some q)
      × (q.temp_view_active ≡ false)
      × Tracked memory_redis routes (now memory_redis q)
      × ((j g : Bytes)
          → g ≢ null
          → view memory_redis routes j g (now memory_redis q) ≡ (lookup j target >>= lookup g)))
view-apply_temp_view_example =
    view-apply_temp_view memory_redis producer routes-IsNamed refl refl target-IsView

-- Clearing the table R drops what is pending for the table R2 as well.
clear_test :
    hget (codes "_R2:a") (codes "nh") (
      evalsha memory_redis
        (lua_clear memory_redis)
        (clear_args routes 0)
        (record { hashes = (codes "_R2:a", nexthop (codes "1")) ∷ []; sets = []; log = [] }))
    ≡ none
unfolding evalsha lua_clear clear_args del_all keys hget del lookup erase bytes_beq starts_with
    key_set_name
clear_test = refl
