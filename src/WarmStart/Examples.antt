-- ===== src/WarmStart/Examples.antt =====
-- Tests of warm starts on the Redis in memory, and their theorems at concrete inputs.
use mathlib.Core.Bool.{true, false}
use sonic_swss_common.Prelude.{
  ◌+◌, ◌%◌, ◌^◌, [], ◌∷◌, some, bytes_eq, bytes_beq, codes, ◌≡◌, refl, arith, inl, inr, lookup,
}
use sonic_swss_common.Decimal.{to_string, strtoul}
use sonic_swss_common.Redis.Memory.{Memory}
use sonic_swss_common.Redis.Model.{memory_redis, hget}
use sonic_swss_common.RedisPipeline.{push_reply}
use sonic_swss_common.PlainTable
use sonic_swss_common.PlainTable.{strip_special_sym}
use sonic_swss_common.StateTable.Names.{key_name}
use sonic_swss_common.WarmStart.{
  WarmStart, restored, check_failed, stage_shutdown, stage_restore, read_field,
  get_warm_start_timer, get_warm_start_state, set_warm_start_state, get_data_check_state,
  set_data_check_state,
}
use sonic_swss_common.WarmStart.States.{
  same_stage, get-set_warm_start_state, get-set_data_check_state,
}
use sonic_swss_common.WarmStart.Restarts.{
  count_of, restart, restarts, all_warm, restarts_warm, restart_cold,
}

abbrev stored : Memory
stored = record {
  hashes =
      (codes "WARM_RESTART_ENABLE_TABLE|system", (codes "enable", codes "true") ∷ [])
      ∷ (codes "WARM_RESTART_TABLE|orchagent", (codes "restore_count", codes "4") ∷ [])
      ∷ [];
  sets = [];
  log = [];
}

abbrev configured : Memory
configured = record {
  hashes = (codes "WARM_RESTART|swss", (codes "orchagent_timer", codes "0x10") ∷ []) ∷ [];
  sets = [];
  log = [];
}

abbrev warm : WarmStart memory_redis (codes "|")
warm = record {
  state_db = stored;
  cfg_db = configured;
  enabled = true;
  system_warm_reboot_enabled = true;
}

abbrev flushed : WarmStart memory_redis (codes "|")
flushed = record warm { state_db = record { hashes = []; sets = []; log = [] } }

timer_test :
    get_warm_start_timer memory_redis (codes "|") (codes "orchagent") (codes "swss") warm ≡ 16
unfolding get_warm_start_timer strtoul PlainTable.hget push_reply hget lookup bytes_beq
    strip_special_sym key_name
timer_test = refl

count_test : count_of memory_redis (codes "|") (codes "orchagent") (codes "swss") warm ≡ to_string 4
unfolding read_field PlainTable.hget push_reply hget lookup bytes_beq strip_special_sym key_name
    to_string
count_test = refl

system_on :
    read_field memory_redis
      (codes "|")
      (record { table_name = codes "WARM_RESTART_ENABLE_TABLE"; separator = codes "|" })
      (codes "system")
      (codes "enable")
      stored
    ≡ codes "true"
unfolding read_field PlainTable.hget push_reply hget lookup bytes_beq strip_special_sym key_name
system_on = refl

restarts_warm_example :
    (all_warm memory_redis (codes "|") (codes "orchagent") (codes "swss") 3 warm ≡ true)
    × (count_of memory_redis
          (codes "|")
          (codes "orchagent")
          (codes "swss")
          (restarts memory_redis (codes "|") (codes "orchagent") (codes "swss") 3 warm)
        ≡ to_string ((4 + 3) % 2 ^ 32))
restarts_warm_example =
    restarts_warm memory_redis (codes "|") (codes "orchagent") (codes "swss") 3 4 warm (omega arith)
      (inl system_on) count_test

no_count : count_of memory_redis (codes "|") (codes "orchagent") (codes "swss") flushed ≡ []
unfolding read_field PlainTable.hget push_reply hget lookup bytes_beq
no_count = refl

restart_cold_example :
    ((restart memory_redis (codes "|") (codes "orchagent") (codes "swss") flushed).0 ≡ some false)
    × (count_of memory_redis
          (codes "|")
          (codes "orchagent")
          (codes "swss")
          (restart memory_redis (codes "|") (codes "orchagent") (codes "swss") flushed).1
        ≡ codes "0")
    × ((restart memory_redis (codes "|") (codes "orchagent") (codes "swss") flushed).1.enabled
        ≡ false)
    × ((restart memory_redis
          (codes "|")
          (codes "orchagent")
          (codes "swss")
          flushed).1.system_warm_reboot_enabled
        ≡ false)
restart_cold_example =
    restart_cold memory_redis (codes "|") (codes "orchagent") (codes "swss") flushed (inr no_count)

get-set_warm_start_state_example :
    (get_warm_start_state memory_redis
        (codes "|")
        (codes "orchagent")
        (set_warm_start_state memory_redis (codes "|") (codes "orchagent") restored warm)
      ≡ restored)
    × (get_data_check_state memory_redis
          (codes "|")
          (codes "orchagent")
          stage_restore
          (set_warm_start_state memory_redis (codes "|") (codes "orchagent") restored warm)
        ≡ get_data_check_state memory_redis (codes "|") (codes "orchagent") stage_restore warm)
unfolding bytes_beq
get-set_warm_start_state_example =
    get-set_warm_start_state memory_redis (codes "|") (codes "orchagent") (codes "orchagent")
      restored stage_restore warm

get-set_data_check_state_example :
    (get_data_check_state memory_redis (codes "|") (codes "orchagent") stage_shutdown (
        set_data_check_state memory_redis
          (codes "|")
          (codes "orchagent")
          stage_shutdown
          check_failed
          warm)
      ≡ check_failed)
    × (get_warm_start_state memory_redis (codes "|") (codes "orchagent") (
          set_data_check_state memory_redis
            (codes "|")
            (codes "orchagent")
            stage_shutdown
            check_failed
            warm)
        ≡ get_warm_start_state memory_redis (codes "|") (codes "orchagent") warm)
unfolding bytes_beq same_stage
get-set_data_check_state_example =
    get-set_data_check_state memory_redis (codes "|") (codes "orchagent") (codes "orchagent")
      stage_shutdown stage_shutdown check_failed warm
