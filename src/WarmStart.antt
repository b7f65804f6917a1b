-- ===== src/WarmStart.antt =====
-- common/warm_restart.h and common/warm_restart.cpp: what an application knows of a restart.
pub mod Stored
pub mod States
pub mod Restarts
mod Examples
use mathlib.Core.Bool.{Bool, true, false, ◌||◌, ◌&&◌, not}
use sonic_swss_common.Prelude.{
  ℕ, ◌+◌, ◌-◌, ◌%◌, ◌^◌, List, [], ◌∷◌, ◌++◌, Option, none, some, Bytes, bytes_eq, codes, ◌==◌,
  nat_eq, leb, if◌then◌else◌,
}
use sonic_swss_common.Decimal.{to_string, stoul, strtoul}
use sonic_swss_common.Redis.{Redis}
use sonic_swss_common.RedisPipeline
use sonic_swss_common.PlainTable
use sonic_swss_common.PlainTable.{TableClient}
use sonic_swss_common.StateTable.Names.{Table}

pub data WarmStartState : Type 0 where
  initialized restored replayed reconciled wsdisabled wsunknown : WarmStartState

pub data DataCheckState : Type 0 where
  check_ignored check_passed check_failed : DataCheckState

pub data DataCheckStage : Type 0 where
  stage_shutdown stage_restore : DataCheckStage

-- `warmStartStateNameMap` and `dataCheckStateNameMap`, in the order of their keys.
abbrev pub warm_start_state_name_map : List (WarmStartState × Bytes)
warm_start_state_name_map =
    (initialized, codes "initialized")
    ∷ (restored, codes "restored")
    ∷ (replayed, codes "replayed")
    ∷ (reconciled, codes "reconciled")
    ∷ (wsdisabled, codes "disabled")
    ∷ (wsunknown, codes "unknown")
    ∷ []

abbrev pub data_check_state_name_map : List (DataCheckState × Bytes)
data_check_state_name_map =
    (check_ignored, codes "ignored")
    ∷ (check_passed, codes "passed")
    ∷ (check_failed, codes "failed")
    ∷ []

-- `at` of the two maps
unfoldable pub state_name : WarmStartState → Bytes
state_name initialized = codes "initialized"
state_name restored = codes "restored"
state_name replayed = codes "replayed"
state_name reconciled = codes "reconciled"
state_name wsdisabled = codes "disabled"
state_name wsunknown = codes "unknown"

unfoldable pub check_name : DataCheckState → Bytes
check_name check_ignored = codes "ignored"
check_name check_passed = codes "passed"
check_name check_failed = codes "failed"

unfoldable pub stage_field : DataCheckStage → Bytes
stage_field stage_shutdown = codes "shutdown_check"
stage_field stage_restore = codes "restore_check"

-- The loop over such a map, with the state that is kept where no name fits.
unfoldable pub find_name {ℓ} : {A : Type ℓ} → A → List (A × Bytes) → Bytes → A
find_name state [] text = state
find_name state ((s, name) ∷ names) text = if name == text then s else find_name state names text

-- The separator of the databases' keys comes from the configuration.
module _ (r : Redis) (separator : Bytes) where
  open r use {Db}

  -- The object behind `getInstance`, once `initialize` has made its tables.
  pub record WarmStart : Type 0 where
    pub state_db : Db
    pub cfg_db : Db
    pub enabled : Bool
    pub system_warm_reboot_enabled : Bool

  abbrev pub table_of : Bytes → Table
  table_of name = record { table_name = name; separator = separator }

  abbrev pub enable_table : Table
  enable_table = table_of (codes "WARM_RESTART_ENABLE_TABLE")

  abbrev pub restart_table : Table
  restart_table = table_of (codes "WARM_RESTART_TABLE")

  abbrev pub cfg_table : Table
  cfg_table = table_of (codes "WARM_RESTART")

  -- A Table on a database: unbuffered, so that its pipeline is empty between calls.
  abbrev pub client : Table → Db → TableClient r
  client table db = record {
    table = table;
    buffered = false;
    pipe = record { command_max = 1; queued = []; channels = []; db = db };
  }

  -- The argument that `Table::hget` sets, or clears if there is no such field.
  unfoldable pub text_of : Option Bytes → Bytes
  text_of none = []
  text_of (some value) = value

  unfoldable pub read_field : Table → Bytes → Bytes → Db → Bytes
  unfolding text_of
  read_field table key field db = text_of (PlainTable.hget r key field (client table db)).0

  unfoldable pub write_field : Table → Bytes → Bytes → Bytes → Db → Db
  write_field table key field value db =
      RedisPipeline.settled r (PlainTable.hset r key field value (client table db)).pipe

  abbrev pub restore_count : Bytes
  restore_count = codes "restore_count"

  unfoldable pub write_count : Bytes → Bytes → WarmStart → WarmStart
  write_count app_name count w = record w {
    state_db = write_field restart_table app_name restore_count count w.state_db;
  }

  -- The two knobs.
  unfoldable pub read_knobs : Bytes → WarmStart → WarmStart
  unfolding read_field
  read_knobs docker_name w =
      let system =
        read_field enable_table (codes "system") (codes "enable") w.state_db == codes "true" in
      let docker =
        read_field enable_table docker_name (codes "enable") w.state_db == codes "true" in
      record w {
        enabled = w.enabled || system || docker;
        system_warm_reboot_enabled = w.system_warm_reboot_enabled || system;
      }

  -- `none` is the exception of `stoul`.
  unfoldable pub count_restore : Bytes → Option ℕ → WarmStart → Option Bool × WarmStart
  unfolding write_count
  count_restore app_name none w = (none, w)
  count_restore app_name (some n) w =
      (some true, write_count app_name (to_string ((n % 2 ^ 32 + 1) % 2 ^ 32)) w)

  -- `checkWarmStart`, with both knobs read and the restore count at hand.
  unfoldable pub decide : Bytes → Bool → Bytes → WarmStart → Option Bool × WarmStart
  unfolding write_count count_restore
  decide app_name incr_restore_cnt value w =
      if not w.enabled
      then (some false, write_count app_name (codes "0") w)
      else if value == []
      then (
        some false,
        write_count app_name (codes "0")
            (record w { enabled = false; system_warm_reboot_enabled = false }),
      )
      else if incr_restore_cnt
      then count_restore app_name (stoul value) w
      else (some true, w)

  unfoldable pub check_warm_start : Bytes → Bytes → Bool → WarmStart → Option Bool × WarmStart
  unfolding read_knobs read_field decide
  check_warm_start app_name docker_name incr_restore_cnt w =
      decide app_name incr_restore_cnt (read_field restart_table app_name restore_count w.state_db)
        (read_knobs docker_name w)

  unfoldable pub get_warm_start_timer : Bytes → Bytes → WarmStart → ℕ
  unfolding read_field
  get_warm_start_timer app_name docker_name w =
      let value =
        strtoul (read_field cfg_table docker_name (app_name ++ codes "_timer") w.cfg_db) in
      if not (value == 0) && not (value == 2 ^ 64 - 1) && leb value 9999 then value else 0

  unfoldable pub get_warm_start_state : Bytes → WarmStart → WarmStartState
  get_warm_start_state app_name w =
      if not w.enabled
      then reconciled
      else find_name wsunknown warm_start_state_name_map
          (read_field restart_table app_name (codes "state") w.state_db)

  unfoldable pub set_warm_start_state : Bytes → WarmStartState → WarmStart → WarmStart
  set_warm_start_state app_name state w = record w {
    state_db = write_field restart_table app_name (codes "state") (state_name state) w.state_db;
  }

  unfoldable pub set_data_check_state :
      Bytes → DataCheckStage → DataCheckState → WarmStart → WarmStart
  set_data_check_state app_name stage state w = record w {
    state_db = write_field restart_table app_name (stage_field stage) (check_name state) w.state_db;
  }

  unfoldable pub get_data_check_state : Bytes → DataCheckStage → WarmStart → DataCheckState
  get_data_check_state app_name stage w =
      find_name check_ignored data_check_state_name_map
        (read_field restart_table app_name (stage_field stage) w.state_db)
