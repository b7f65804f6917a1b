-- ===== src/WarmStart/States.antt =====
-- The states that applications record, and what they read back.
use mathlib.Core.Bool.{Bool, true, false, ◌&&◌, not}
use sonic_swss_common.Prelude.{
  Bytes, bytes_eq, bytes_beq, codes, ◌≡◌, refl, ◌∙◌, arith, ◌==◌, eq_refl, if◌then◌else◌,
}
use sonic_swss_common.Redis.{Redis}
use sonic_swss_common.PlainTable.{strip_special_sym}
use sonic_swss_common.WarmStart.{
  WarmStartState, initialized, restored, replayed, reconciled, wsdisabled, wsunknown,
  DataCheckState, check_ignored, check_passed, check_failed, DataCheckStage, stage_shutdown,
  stage_restore, state_name, check_name, stage_field, find_name, warm_start_state_name_map,
  data_check_state_name_map, WarmStart, restart_table, read_field, write_field,
  get_warm_start_state, set_warm_start_state, set_data_check_state, get_data_check_state,
}
use sonic_swss_common.WarmStart.Stored.{read-write, key_name-key_name}

find-state_name :
    (s : WarmStartState)
    → find_name wsunknown warm_start_state_name_map (strip_special_sym (state_name s)) ≡ s
unfolding find_name strip_special_sym state_name bytes_beq
find-state_name initialized = refl
find-state_name restored = refl
find-state_name replayed = refl
find-state_name reconciled = refl
find-state_name wsdisabled = refl
find-state_name wsunknown = refl

find-check_name :
    (s : DataCheckState)
    → find_name check_ignored data_check_state_name_map (strip_special_sym (check_name s)) ≡ s
unfolding find_name strip_special_sym check_name bytes_beq
find-check_name check_ignored = refl
find-check_name check_passed = refl
find-check_name check_failed = refl

unfoldable pub same_stage : DataCheckStage → DataCheckStage → Bool
same_stage stage_shutdown stage_shutdown = true
same_stage stage_restore stage_restore = true
same_stage stage_shutdown stage_restore = false
same_stage stage_restore stage_shutdown = false

stage_field-eq : (a b : DataCheckStage) → (stage_field a == stage_field b) ≡ same_stage a b
unfolding stage_field same_stage bytes_beq
stage_field-eq stage_shutdown stage_shutdown = refl
stage_field-eq stage_restore stage_restore = refl
stage_field-eq stage_shutdown stage_restore = refl
stage_field-eq stage_restore stage_shutdown = refl

stage_field-ne-state :
    (a : DataCheckStage)
    → ((stage_field a == codes "state") ≡ false) × ((codes "state" == stage_field a) ≡ false)
unfolding stage_field bytes_beq
stage_field-ne-state stage_shutdown = (refl, refl)
stage_field-ne-state stage_restore = (refl, refl)

module _ (r : Redis) (separator : Bytes) where
  -- A field of the restart table, read behind a write of another or of the same.
  read-write_restart :
      (app f v app' f' : Bytes) (db : r.Db)
      → read_field r separator
          (restart_table r separator)
          app'
          f'
          (write_field r separator (restart_table r separator) app f v db)
        ≡ (if app == app' && f == f'
            then strip_special_sym v
            else read_field r separator (restart_table r separator) app' f' db)
  read-write_restart app f v app' f' db =
      read-write r separator (restart_table r separator) (restart_table r separator) app f v app' f'
        db
      ∙ rw (key_name-key_name (restart_table r separator) app app') refl

  -- The field of a state, and those of the data checks.
  read_state :
      (app app' : Bytes) (state : WarmStartState) (db : r.Db)
      → find_name wsunknown warm_start_state_name_map (
          read_field r separator (restart_table r separator) app' (codes "state") (
            write_field r separator
              (restart_table r separator)
              app
              (codes "state")
              (state_name state)
              db))
        ≡ (if app == app'
            then state
            else find_name wsunknown warm_start_state_name_map
                (read_field r separator (restart_table r separator) app' (codes "state") db))
  read_state app app' state db = ground (
    arith,
    read-write_restart app (codes "state") (state_name state) app' (codes "state") db,
    eq_refl (codes "state"),
    find-state_name state,
  )

  read_check :
      (app app' : Bytes) (stage stage' : DataCheckStage) (state : DataCheckState) (db : r.Db)
      → find_name check_ignored data_check_state_name_map (
          read_field r separator (restart_table r separator) app' (stage_field stage') (
            write_field r separator
              (restart_table r separator)
              app
              (stage_field stage)
              (check_name state)
              db))
        ≡ (if app == app' && same_stage stage stage'
            then state
            else find_name check_ignored data_check_state_name_map
                (read_field r separator (restart_table r separator) app' (stage_field stage') db))
  read_check app app' stage stage' state db = ground (
    arith,
    read-write_restart app (stage_field stage) (check_name state) app' (stage_field stage') db,
    stage_field-eq stage stage',
    find-check_name state,
  )

  -- What an application records as its state of a warm start is what is read for it, and nothing
  -- else changes for the states of others and for the data checks; without a warm start everyone is
  -- taken for reconciled.
  pub get-set_warm_start_state :
      (app app' : Bytes) (state : WarmStartState) (stage : DataCheckStage)
      (w : WarmStart r separator)
      → (get_warm_start_state r separator app' (set_warm_start_state r separator app state w) ≡ (
          if not w.enabled
          then reconciled
          else if app == app'
          then state
          else get_warm_start_state r separator app' w))
        × (get_data_check_state r separator app' stage
              (set_warm_start_state r separator app state w)
            ≡ get_data_check_state r separator app' stage w)
  unfolding get_warm_start_state set_warm_start_state get_data_check_state
  get-set_warm_start_state app app' state stage w = (
    ground (arith, read_state app app' state w.state_db),
    ground (
      arith,
      read-write_restart app (codes "state") (state_name state) app' (stage_field stage) w.state_db,
      (stage_field-ne-state stage).1,
    ),
  )

  -- The result of a data check is read back for its stage and its application; it changes neither the
  -- results of other stages or applications nor any state of a warm start.
  pub get-set_data_check_state :
      (app app' : Bytes) (stage stage' : DataCheckStage) (state : DataCheckState)
      (w : WarmStart r separator)
      → (get_data_check_state r separator app' stage'
            (set_data_check_state r separator app stage state w)
          ≡ (if app == app' && same_stage stage stage'
              then state
              else get_data_check_state r separator app' stage' w))
        × (get_warm_start_state r separator app'
              (set_data_check_state r separator app stage state w)
            ≡ get_warm_start_state r separator app' w)
  unfolding get_warm_start_state set_data_check_state get_data_check_state
  get-set_data_check_state app app' stage stage' state w = (
    read_check app app' stage stage' state w.state_db,
    ground (
      arith,
      read-write_restart app (stage_field stage) (check_name state) app' (codes "state") w.state_db,
      (stage_field-ne-state stage).0,
    ),
  )
