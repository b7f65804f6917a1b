-- ===== src/StateTable/Examples.antt =====
-- Tests of the state tables on the Redis in memory, and the theorems at concrete inputs.
use sonic_swss_common.Prelude.{
  ◌≢◌, true, false, List, [], ◌∷◌, some, Bytes, bytes_eq, nat_eq, ◌≡◌, refl, arith, if◌then◌else◌,
  codes, contains, inl, lookup, All, bytes_beq, insert, erase, starts_with,
}
use sonic_swss_common.Decimal.{to_string, scan}
use sonic_swss_common.StateTable.Producer.{set_args, del_args, batched_set_args}
use sonic_swss_common.Kco.{FieldValue, Kco, TableDump, set_command}
use sonic_swss_common.StateTable.Applied.{IsView}
use sonic_swss_common.StateTable.Scripts.{lua_clear, lua_apply_view}
use sonic_swss_common.StateTable.Producer.{clear_args}
use sonic_swss_common.StateTable.TempView.{dump, changes, apply_args}
use sonic_swss_common.Redis.Loops.{last_value, del_all, or_else, hset_all}
use sonic_swss_common.Redis.Memory.{Memory, empty, hash, hset, hdel, sadd, srem, spop, del, publish}
use sonic_swss_common.Redis.Model.{memory_redis, hget, sismember, hgetall, keys}
use sonic_swss_common.StateTable.Names.{
  Table, IsNamed, row_name, key_name, key_set_name, del_key_set_name, channel_name,
}
use sonic_swss_common.StateTable.Scripts.{evalsha, lua_set, lua_del, lua_batched_set, lua_pops}
use sonic_swss_common.StateTable.Producer
use sonic_swss_common.StateTable.Producer.{Producer}
use sonic_swss_common.StateTable.Consumer.{Consumer, pops}
use sonic_swss_common.StateTable.View.{view}
use sonic_swss_common.StateTable.Delivery.{Tracked, popped, hget-pops-row}
use sonic_swss_common.StateTable.Changes.{now, view-set}
use sonic_swss_common.StateTable.EmptyKey.{view-set_empty_key}
use sonic_swss_common.StateTable.Runs.{Event, Fits, IsSeen}
use sonic_swss_common.StateTable.History.{
  meant_all, run_history, trace, run_history-Tracked, held-run_history, history_delivered,
}
use sonic_swss_common.StateTable.Held.{held}

abbrev port : Table
port = record { table_name = codes "PORT"; separator = codes ":" }

port-IsNamed : IsNamed port
port-IsNamed = record { sep = b':'; single = refl; free = omega arith; legal = inl refl }

abbrev mtu : List FieldValue
mtu = (codes "mtu", codes "9100") ∷ []

abbrev e0 : Bytes
e0 = codes "E0"

abbrev producer : Producer memory_redis
producer = record {
  table = port;
  db_id = 0;
  flush_pub = false;
  buffered = true;
  temp_view_active = false;
  temp_view_state = [];
  pipe = record { command_max = 128; queued = []; channels = []; db = empty };
}

abbrev consumer : Consumer
consumer = record { table = port; pop_batch_size = 128 }

abbrev temp : TableDump
temp = (codes "E1", mtu) ∷ []

temp-IsView : IsView memory_redis temp
temp-IsView = record {
  keys_once = unfold lookup in (refl, tt);
  fields_once = unfold lookup in ((refl, tt), tt);
  keyed = unfold lookup bytes_beq in refl;
}

abbrev events : List Event
events =
    Event.sets true e0 mtu
    ∷ Event.pop 1
    ∷ Event.dels true e0
    ∷ Event.clears
    ∷ Event.applies temp
    ∷ Event.sets_all true
        (record { key = e0; op = set_command; fvs = (codes "speed", codes "10") ∷ [] } ∷ [])
    ∷ []

abbrev after : Memory
after = run_history memory_redis port 0 events empty

-- The set is popped. Its deletion is cleared, but the view that is applied does not have the row, so
-- the row is deleted after all, and set anew; the last pop finds the new fields.
-- The definitions that a test runs through.
runs : Unit {0}
unfolding run_history pops hget sismember hgetall keys hset hdel sadd srem spop del publish lua_pops
    evalsha lua_set lua_del lua_batched_set set_args del_args batched_set_args key_set_name
    del_key_set_name key_name channel_name to_string bytes_beq contains lookup insert erase hset_all
    scan lua_clear lua_apply_view clear_args dump changes apply_args del_all starts_with
runs = tt

history_test :
    (pops memory_redis consumer after).0
    ≡ record { key = codes "E1"; op = set_command; fvs = mtu }
      ∷ record { key = e0; op = set_command; fvs = (codes "speed", codes "10") ∷ [] }
      ∷ []
unfolding runs
history_test = refl

empty-Tracked : Tracked memory_redis port empty
unfolding hget sismember contains lookup hash
empty-Tracked = record { values = λ j g v h. ground arith; deletions = λ j h. ground arith }

events-Fits : All (Fits memory_redis port) events
events-Fits = (ground arith, (tt, (ground arith, (tt, ((refl, temp-IsView), (tt, tt))))))

speed-IsSeen : All (IsSeen (codes "speed")) events
speed-IsSeen = (tt, (tt, (tt, (tt, (ground arith, (tt, tt))))))

history_delivered_example :
    hget (row_name port e0) (codes "speed") (pops memory_redis consumer after).1
    ≡ (meant_all
        (trace memory_redis port port-IsNamed 0 events empty)
        e0
        (codes "speed")
        (held memory_redis port e0 (codes "speed") empty)).value
history_delivered_example =
    history_delivered memory_redis port port-IsNamed 0 events 128 empty e0 (codes "speed")
      events-Fits speed-IsSeen empty-Tracked (unfold runs in omega arith)

run_history-Tracked_example : Tracked memory_redis port after
run_history-Tracked_example =
    run_history-Tracked memory_redis port port-IsNamed 0 events empty events-Fits empty-Tracked

held-run_history_example :
    held memory_redis port e0 (codes "speed") after
    ≡ meant_all
        (trace memory_redis port port-IsNamed 0 events empty)
        e0
        (codes "speed")
        (held memory_redis port e0 (codes "speed") empty)
held-run_history_example =
    held-run_history memory_redis port port-IsNamed 0 events e0 (codes "speed") empty events-Fits
      speed-IsSeen

e0_ne_nil : e0 ≢ []
e0_ne_nil = ground arith

view-set_example :
    view memory_redis port e0
      (codes "mtu")
      (now memory_redis (Producer.set memory_redis e0 mtu producer))
    ≡ or_else
        (some (codes "9100"))
        (view memory_redis port e0 (codes "mtu") (now memory_redis producer))
unfolding bytes_beq last_value
view-set_example =
    view-set memory_redis producer port-IsNamed refl e0 mtu e0 (codes "mtu") e0_ne_nil

abbrev two_requests : List Kco
two_requests =
    record { key = e0; op = set_command; fvs = mtu }
    ∷ record { key = []; op = set_command; fvs = mtu }
    ∷ []

hget-pops-row_example :
    hget (row_name port e0) (codes "mtu") (pops memory_redis consumer after).1 ≡ (
      if contains (popped memory_redis consumer port-IsNamed after) e0
      then view memory_redis port e0 (codes "mtu") after
      else hget (row_name port e0) (codes "mtu") after)
hget-pops-row_example = hget-pops-row memory_redis consumer port-IsNamed after e0 (codes "mtu")

view-set_empty_key_example :
    view memory_redis port []
      (codes "mtu")
      (now memory_redis (Producer.set memory_redis [] mtu producer))
    ≡ view memory_redis port [] (codes "mtu") (now memory_redis producer)
view-set_empty_key_example =
    view-set_empty_key memory_redis producer port-IsNamed refl mtu [] (codes "mtu")
