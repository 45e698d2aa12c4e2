-- ===== src/Core/Controller/Step.antt =====
-- `ctrl_update` of src/core/controller.c, in the parts between its early returns. Each part returns
-- the status, the controller and the board.
use climate_node.Prelude.{
  ℕ, ◌+◌, Bool, true, false, not, ◌||◌, ℤ, ◌-ℤ◌, i32, u8, u32, ltb, leb, ltb_ℤ, if◌then◌else◌,
}
use climate_node.Platform.{Board, platform_emergency_backup_save}
use climate_node.Core.Types.{Err, Sample}
use climate_node.Core.Filter.{ma_update}
use climate_node.Core.Dewpoint.{dewpoint_calc_cd}
use climate_node.Core.Controller.{CtrlState, Controller, ctrl_set_relay, sample_is_valid}

abbrev pub Outcome : Type 0
Outcome = Err × Controller × Board

abbrev pub is_safe : CtrlState → Bool
is_safe CtrlState.safe = true
is_safe _ = false

-- The two states that a run of valid samples recovers from.
abbrev pub needs_recovery : CtrlState → Bool
needs_recovery CtrlState.sensor_fault = true
needs_recovery CtrlState.math_fault = true
needs_recovery _ = false

-- An invalid sample.
unfoldable pub on_invalid : Controller → Board → Outcome
unfolding ctrl_set_relay
on_invalid c b =
    let d = record c {
      sensor_error_streak = u8 (c.sensor_error_streak + 1);
      sensor_ok_streak = 0;
      last_error = Err.sensor;
    } in
    if leb d.cfg.fault_threshold d.sensor_error_streak
    then (
      Err.sensor,
      ctrl_set_relay
          (record d { state = CtrlState.sensor_fault; fault_count = u32 (d.fault_count + 1) })
          d.cfg.relay_safe_state,
      b,
    )
    else (Err.sensor, d, b)

-- A failed calculation.
unfoldable pub on_math_fault : Err → Controller → Board → Outcome
unfolding ctrl_set_relay
on_math_fault e c b = (
  e,
  ctrl_set_relay
      (record c {
        state = CtrlState.math_fault;
        last_error = e;
        fault_count = u32 (c.fault_count + 1);
      })
      c.cfg.relay_safe_state,
  b,
)

-- The relay decision: a margin below the first threshold turns it on, one above the second off.
unfoldable pub decide_relay : Controller → Controller
unfolding ctrl_set_relay
decide_relay c =
    let margin_cd = i32 (c.filtered_temp_cd -ℤ c.dew_point_cd) in
    if not c.relay_on
    then if ltb_ℤ margin_cd c.cfg.dew_margin_on_cd then ctrl_set_relay c true else c
    else if ltb_ℤ c.cfg.dew_margin_off_cd margin_cd
    then ctrl_set_relay c false
    else c

-- A stable cycle clears the count of watchdog crashes, here and in the backup byte.
unfoldable pub clear_crashes : Controller → Board → Controller × Board
unfolding platform_emergency_backup_save
clear_crashes c b =
    if ltb 0 c.watchdog_crash_counter
    then (record c { watchdog_crash_counter = 0 }, platform_emergency_backup_save 0 b)
    else (c, b)

-- The tail of the function, on the status of the dew point calculation.
unfoldable pub after_dewpoint : Err → Controller → Board → Outcome
after_dewpoint Err.ok c b =
    let (d, b') = clear_crashes (decide_relay c) b in
    (Err.ok, record d { state = CtrlState.run; last_error = Err.ok }, b')
after_dewpoint e c b = on_math_fault e c b

module _ (table : ℕ → ℤ) where
  -- What follows the filter, on its status.
  unfoldable pub after_filter : Err → Controller → Board → Outcome
  after_filter Err.ok c b =
      let (e, dew) = dewpoint_calc_cd table c.filtered_temp_cd c.humidity_cp c.dew_point_cd in
      after_dewpoint e (record c { dew_point_cd = dew }) b
  after_filter Err.warmup c b = (
    Err.warmup,
    ctrl_set_relay (record c { state = CtrlState.warmup; last_error = Err.warmup })
        c.cfg.relay_safe_state,
    b,
  )
  after_filter e c b = on_math_fault e c b

  -- A valid sample that is taken into the filter.
  unfoldable pub measure : Controller → Sample → Board → Outcome
  measure c s b =
      let (ferr, avg, count, g) = ma_update c.filter s.temp_cd in
      after_filter ferr
        (record c {
          sensor_ok_streak = 0;
          humidity_cp = s.rh_cp;
          filter = g;
          filtered_temp_cd = avg;
        })
        b

  -- A valid sample: in a fault state it counts towards recovery first.
  unfoldable pub on_valid : Controller → Sample → Board → Outcome
  on_valid c s b =
      if needs_recovery c.state
      then (let d = record c { sensor_ok_streak = u8 (c.sensor_ok_streak + 1) } in
          if ltb d.sensor_ok_streak d.cfg.recovery_threshold
          then (Err.not_ready, record d { last_error = Err.not_ready }, b)
          else measure d s b)
      else measure c s b

  unfoldable pub ctrl_update : Controller → Sample → Board → Outcome
  ctrl_update c s b =
      if is_safe c.state || c.power_is_dying
      then (Err.hw, ctrl_set_relay c c.cfg.relay_safe_state, b)
      else let d = record c { sample_count = u32 (c.sample_count + 1) } in
        if not (sample_is_valid s)
        then on_invalid d b
        else on_valid (record d { sensor_error_streak = 0 }) s b
