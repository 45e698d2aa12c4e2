-- ===== src/App/Node.antt =====
-- src/app/app.c, include/app/app.h and include/driver/sensor.h: the application object, which polls a
-- sensor, runs the controller, drives the relay and keeps the configuration. A sensor port is a
-- function on the driver's state `W`, or null; the other addresses are never null.
pub mod Relay
pub mod Config
pub mod Runs
pub mod Outage
use climate_node.Prelude.{
  ℕ, ◌+◌, ◌-◌, ◌%◌, ◌^◌, Bool, true, false, not, Option, none, some, ℤ, pos, u32, sub32, ltb, ◌==◌,
  if◌then◌else◌,
}
use Prim.Native.Nat.{bit_and, bit_or}
use climate_node.Platform.{Board, platform_relay_set}
use climate_node.Core.Types.{Err, Quality, Sample}
use climate_node.Core.Controller.{CtrlState, ControllerConfig, Controller, ctrl_init, ctrl_relay_on}
use climate_node.Core.Controller.Step.{ctrl_update}
use climate_node.Service.Storage.{DeviceConfig, storage_load_defaults, storage_validate}
use climate_node.Service.Storage.Persist.{FlashOps, is_ok, storage_load, storage_save}

-- `sensor_read_fn` with its context: the status, the sample (given what it was) and the driver.
abbrev pub SensorRead : Type 0 → Type 0
SensorRead W = W → Sample → Err × Sample × W

-- `app_t`
pub record App (W : Type 0) : Type 0 where
  pub ctrl : Controller
  pub read : Option (SensorRead W)
  pub cfg : DeviceConfig
  pub next_sample_ms : ℕ
  pub relay_prev : Bool
  pub ticket_mask : ℕ
  pub required_tickets : ℕ

-- What lies outside the object: the board, the flash memory and the sensor's driver.
pub record World (F W : Type 0) : Type 0 where
  pub board : Board
  pub flash : F
  pub driver : W

abbrev pub ticket_control : ℕ
ticket_control = 1

abbrev pub ticket_comm : ℕ
ticket_comm = 2

abbrev pub ticket_log : ℕ
ticket_log = 4

-- `app_report_t`
pub record Report : Type 0 where
  pub state : CtrlState
  pub last_error : Err
  pub filtered_temp_cd : ℤ
  pub humidity_cp : ℕ
  pub dew_point_cd : ℤ
  pub relay_on : Bool
  pub sample_count : ℕ
  pub fault_count : ℕ

-- The controller's configuration, as `app_init` and `app_apply_config` both make it.
abbrev pub control_config : DeviceConfig → ControllerConfig
control_config cfg = record {
  dew_margin_on_cd = cfg.dew_margin_on_cd;
  dew_margin_off_cd = cfg.dew_margin_off_cd;
  sample_period_ms = cfg.sample_period_ms;
  fault_threshold = 3;
  recovery_threshold = 3;
  relay_safe_state = false;
}

abbrev pub same_flag : Bool → Bool → Bool
same_flag true b = b
same_flag false b = not b

-- `sample_t s = {0}`
abbrev pub zero_sample : Sample
zero_sample = record { temp_cd = pos 0; rh_cp = 0; timestamp_ms = 0; quality = Quality.invalid }

-- The sample as the controller gets it: of invalid quality if the driver failed, and stamped.
abbrev pub taken_sample : Err → Sample → ℕ → Sample
taken_sample e s now_ms = record s {
  quality = if not (is_ok e) then Quality.invalid else s.quality;
  timestamp_ms = now_ms;
}

module _ {W : Type 0} where
  unfoldable pub app_init :
      {F : Type 0} → FlashOps F → App W → Option (SensorRead W) → World F W → App W × World F W
  app_init ops app none w = (app, w)
  app_init ops app (some read) w =
      let (e, loaded) = storage_load ops w.flash app.cfg in
      let cfg = if is_ok e then loaded else storage_load_defaults in
      let ctrl = ctrl_init (some (control_config cfg)) in
      (
        record {
          ctrl = ctrl;
          read = some read;
          cfg = cfg;
          next_sample_ms = 0;
          relay_prev = ctrl.relay_on;
          ticket_mask = 0;
          required_tickets = bit_or ticket_control ticket_comm;
        },
        record w { board = platform_relay_set ctrl.relay_on w.board },
      )

  unfoldable pub app_apply_config : App W → App W
  app_apply_config app = record app { ctrl = ctrl_init (some (control_config app.cfg)) }

  unfoldable pub app_update_config :
      {F : Type 0} → FlashOps F → App W → DeviceConfig → World F W → Err × App W × World F W
  app_update_config ops app new_cfg w =
      if not (storage_validate new_cfg)
      then (Err.invalid_arg, app, w)
      else let stored = record app { cfg = new_cfg } in
        let (e, flash) = storage_save ops stored.cfg w.flash in
        let w' = record w { flash = flash } in
        if not (is_ok e) then (e, stored, w') else (Err.ok, app_apply_config stored, w')

  -- The next time: one period on, or one period from now if that has passed too.
  abbrev pub next_sample : App W → ℕ → ℕ
  next_sample app now_ms =
      let next = u32 (app.next_sample_ms + app.ctrl.cfg.sample_period_ms) in
      if ltb (sub32 next now_ms) (2 ^ 31)
      then next
      else u32 (now_ms + app.ctrl.cfg.sample_period_ms)

  abbrev pub sample_is_due : App W → ℕ → Bool
  sample_is_due app now_ms = ltb (sub32 now_ms app.next_sample_ms) (2 ^ 31)

  -- The relay is driven only if it changes.
  unfoldable pub drive_relay : App W → Board → App W × Board
  drive_relay app b =
      let relay = ctrl_relay_on app.ctrl in
      if same_flag relay app.relay_prev
      then (app, b)
      else (record app { relay_prev = relay }, platform_relay_set relay b)

  module _ (table : ℕ → ℤ) where
    -- A poll that is due.
    unfoldable pub app_poll :
        {F : Type 0} → App W → SensorRead W → ℕ → World F W → Err × Bool × App W × World F W
    app_poll app read now_ms w =
        let (e, s, driver) = read w.driver zero_sample in
        let (err, ctrl, board) = ctrl_update table app.ctrl (taken_sample e s now_ms) w.board in
        let (app', board') =
          drive_relay (record app { ctrl = ctrl; next_sample_ms = next_sample app now_ms }) board in
        (err, true, app', record w { driver = driver; board = board' })

    -- The status and whether a sample was processed.
    unfoldable pub app_task : {F : Type 0} → App W → ℕ → World F W → Err × Bool × App W × World F W
    app_task app now_ms w = elim app.read [
      | none ↦ (Err.invalid_arg, false, app, w)
      | some read ↦
          if sample_is_due app now_ms then app_poll app read now_ms w else (Err.ok, false, app, w)
    ]

  unfoldable pub app_report : App W → Report
  app_report app = record {
    state = app.ctrl.state;
    last_error = app.ctrl.last_error;
    filtered_temp_cd = app.ctrl.filtered_temp_cd;
    humidity_cp = app.ctrl.humidity_cp;
    dew_point_cd = app.ctrl.dew_point_cd;
    relay_on = app.ctrl.relay_on;
    sample_count = app.ctrl.sample_count;
    fault_count = app.ctrl.fault_count;
  }

  unfoldable pub app_can_feed_watchdog : App W → Bool
  app_can_feed_watchdog app = bit_and app.ticket_mask app.required_tickets == app.required_tickets

  unfoldable pub app_clear_tickets : App W → App W
  app_clear_tickets app = record app { ticket_mask = 0 }

  unfoldable pub app_mark_ticket : App W → ℕ → App W
  app_mark_ticket app ticket_id = record app { ticket_mask = bit_or app.ticket_mask ticket_id }
