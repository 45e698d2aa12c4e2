-- ===== src/Core/Controller.antt =====
-- src/core/controller.c and include/core/controller.h: the control automaton.
-- A function that changes `*c` or the board returns them; pointers to them are never null. The
-- configuration passed to `ctrl_init` may be null, and is an option.
pub mod Step
pub mod Measure
pub mod Boot
pub mod Safety
pub mod Control
pub mod Faults
pub mod Recovery
pub mod Counting
pub mod Lockout
pub mod Frame
use climate_node.Prelude.{
  ℕ, ◌+◌, ◌%◌, ◌^◌, Bool, true, false, not, ◌||◌, Option, none, some, ℤ, pos, ◌-ℤ◌, i32, u8, u32,
  ltb, leb, ◌==◌, ltb_ℤ, leb_ℤ, if◌then◌else◌,
}
use climate_node.Platform.{
  Board, platform_relay_set, platform_emergency_backup_save, platform_emergency_backup_load,
}
use climate_node.Core.Types.{Err, Quality, ResetCause, Sample, temp_cd_min, temp_cd_max, rh_cp_max}
use climate_node.Core.Filter.{Filter, ma_init, ma_update}
use climate_node.Core.Dewpoint.{dewpoint_calc_cd}

-- `ctrl_state_t`
pub data CtrlState : Type 0 where
  init warmup run sensor_fault math_fault safe : CtrlState

-- `controller_config_t`
pub record ControllerConfig : Type 0 where
  pub dew_margin_on_cd : ℤ
  pub dew_margin_off_cd : ℤ
  pub sample_period_ms : ℕ
  pub fault_threshold : ℕ
  pub recovery_threshold : ℕ
  pub relay_safe_state : Bool

abbrev pub controller_defaults : ControllerConfig
controller_defaults = record {
  dew_margin_on_cd = pos 500;
  dew_margin_off_cd = pos 700;
  sample_period_ms = 1000;
  fault_threshold = 3;
  recovery_threshold = 3;
  relay_safe_state = false;
}

-- `controller_t`
pub record Controller : Type 0 where
  pub cfg : ControllerConfig
  pub filter : Filter
  pub filtered_temp_cd : ℤ
  pub humidity_cp : ℕ
  pub dew_point_cd : ℤ
  pub sensor_error_streak : ℕ
  pub sensor_ok_streak : ℕ
  pub relay_on : Bool
  pub state : CtrlState
  pub last_error : Err
  pub sample_count : ℕ
  pub fault_count : ℕ
  pub watchdog_crash_counter : ℕ
  pub power_is_dying : Bool

unfoldable pub ctrl_set_relay : Controller → Bool → Controller
ctrl_set_relay c on = record c { relay_on = on }

abbrev is_valid_quality : Quality → Bool
is_valid_quality Quality.valid = true
is_valid_quality _ = false

unfoldable pub sample_is_valid : Sample → Bool
sample_is_valid s =
    if not (is_valid_quality s.quality)
    then false
    else if ltb_ℤ s.temp_cd temp_cd_min || ltb_ℤ temp_cd_max s.temp_cd
    then false
    else if ltb rh_cp_max s.rh_cp
    then false
    else true

-- The corrections of `ctrl_init` to the configuration, in its order.
unfoldable pub sane_margins : ControllerConfig → ControllerConfig
sane_margins cfg =
    if leb_ℤ cfg.dew_margin_off_cd cfg.dew_margin_on_cd
    then record cfg {
      dew_margin_on_cd = controller_defaults.dew_margin_on_cd;
      dew_margin_off_cd = controller_defaults.dew_margin_off_cd;
    }
    else cfg

unfoldable pub sane_config : ControllerConfig → ControllerConfig
unfolding sane_margins
sane_config cfg =
    let m = sane_margins cfg in
    record m {
      fault_threshold = if m.fault_threshold == 0 then 1 else m.fault_threshold;
      recovery_threshold = if m.recovery_threshold == 0 then 1 else m.recovery_threshold;
      sample_period_ms = if m.sample_period_ms == 0 then 1000 else m.sample_period_ms;
    }

abbrev or_defaults : Option ControllerConfig → ControllerConfig
or_defaults none = controller_defaults
or_defaults (some cfg) = cfg

unfoldable pub ctrl_init : Option ControllerConfig → Controller
unfolding sane_config
ctrl_init given =
    let sane = sane_config (or_defaults given) in
    record {
      cfg = sane;
      filter = ma_init;
      filtered_temp_cd = pos 0;
      humidity_cp = 0;
      dew_point_cd = pos 0;
      sensor_error_streak = 0;
      sensor_ok_streak = 0;
      relay_on = sane.relay_safe_state;
      state = CtrlState.init;
      last_error = Err.not_ready;
      sample_count = 0;
      fault_count = 0;
      watchdog_crash_counter = 0;
      power_is_dying = false;
    }

-- The three branches on the reset cause.
unfoldable pub boot_after : ResetCause → Controller → Board → Controller × Board
boot_after ResetCause.watchdog c b =
    let crashes = u8 (c.watchdog_crash_counter + 1) in
    let d = record c {
      watchdog_crash_counter = crashes;
      fault_count = u32 (c.fault_count + 1);
      last_error = Err.hw;
    } in
    let b' = platform_emergency_backup_save crashes b in
    if leb 3 crashes
    then (record d { state = CtrlState.safe; relay_on = d.cfg.relay_safe_state }, b')
    else (record d { state = CtrlState.warmup }, b')
boot_after ResetCause.power_on c b = (
  record c { watchdog_crash_counter = 0; state = CtrlState.init },
  platform_emergency_backup_save 0 b,
)
boot_after _ c b = (record c { watchdog_crash_counter = 0; state = CtrlState.init }, b)

unfoldable pub ctrl_init_extended :
    Option ControllerConfig → ResetCause → Board → Controller × Board
unfolding boot_after platform_emergency_backup_save platform_emergency_backup_load
ctrl_init_extended given cause b =
    let c = record (ctrl_init given) { power_is_dying = false } in
    let (loaded, saved_crashes) = platform_emergency_backup_load b in
    boot_after cause (if loaded then record c { watchdog_crash_counter = saved_crashes } else c) b

unfoldable pub ctrl_force_emergency_shutdown : Controller → Board → Controller × Board
unfolding platform_relay_set
ctrl_force_emergency_shutdown c b =
    let d = record c {
      power_is_dying = true;
      state = CtrlState.safe;
      relay_on = c.cfg.relay_safe_state;
    } in
    (d, platform_relay_set d.relay_on b)

unfoldable pub ctrl_relay_on : Controller → Bool
ctrl_relay_on c = c.relay_on

unfoldable pub ctrl_get_state : Controller → CtrlState
ctrl_get_state c = c.state
