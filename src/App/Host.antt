-- ===== src/App/Host.antt =====
-- src/app/main_host.c: the program of the host, which runs the application on the mock sensor for 300 ticks
-- of 10 ms and prints what it does. Its objects, the log with the console and the clock of
-- src/platform/host/platform_host.c are one record. The context's pointers are never null.
pub mod Loop
pub mod Laws
use climate_node.Prelude.{ℕ, ◌+◌, ◌%◌, ◌^◌, Bool, true, false, List, ℤ, codes, u32, if◌then◌else◌}
use Prim.Native.String.{String}
use climate_node.Core.Types.{Err, err_str}
use climate_node.Core.Controller.{CtrlState}
use climate_node.Core.Diagnostics.{Diagnostics, diag_record, diag_uptime_ms}
use climate_node.Service.Logger.{
  LogLevel, Logger, logger_level_enabled, logger_write_char, logger_write_str, logger_write_u32,
  logger_write_u32_padded, logger_write_fixed_cd, logger_write_fixed_cp, logger_new_line,
  logger_task,
}
use climate_node.Service.Storage.Flash.{Flash}
use climate_node.App.Node.{App, Report, World, app_task, app_report}

unfoldable pub state_name : CtrlState → String
state_name CtrlState.init = "INIT"
state_name CtrlState.warmup = "WARMUP"
state_name CtrlState.run = "RUN"
state_name CtrlState.sensor_fault = "SENSOR_FAULT"
state_name CtrlState.math_fault = "MATH_FAULT"
state_name CtrlState.safe = "SAFE"

-- `host_ctx_t` with what it points to, the log, the chunks written to the console, and the clock.
pub record Host : Type 0 where
  pub app : App ℕ
  pub diag : Diagnostics
  pub log : Logger
  pub console : List (List ℕ)
  pub world : World Flash ℕ
  pub now : ℕ

unfoldable pub platform_millis : Host → ℕ
platform_millis c = c.now

unfoldable pub platform_host_tick : ℕ → Host → Host
platform_host_tick ms c = record c { now = u32 (c.now + ms) }

abbrev pub platform_wfi : Host → Host
platform_wfi c = c

unfoldable pub log_timestamp : ℕ → Logger → Logger
log_timestamp ms l =
    logger_write_str (codes "] ") (logger_write_u32_padded ms 6 (logger_write_char 0x5b l))

abbrev label : String → Logger → Logger
label text l = logger_write_str (codes text) l

unfoldable pub log_control_result : Report → Err → ℕ → Logger → Logger
log_control_result r e now l =
    if logger_level_enabled LogLevel.info l
    then (let l1 = label (state_name r.state) (label "state=" (log_timestamp now l)) in
        let l2 = label (err_str e) (label " err=" l1) in
        let l3 = logger_write_fixed_cd r.filtered_temp_cd (label " T=" l2) in
        let l4 = logger_write_fixed_cp r.humidity_cp (label " RH=" l3) in
        let l5 = logger_write_fixed_cd r.dew_point_cd (label " DP=" l4) in
        logger_new_line
          (logger_write_char (if r.relay_on then 0x31 else 0x30) (label " RELAY=" l5)))
    else l

unfoldable pub control_task : (ℕ → ℤ) → Host → Host
control_task table c =
    let now = platform_millis c in
    let (e, processed, app, world) = app_task table c.app now c.world in
    let d = record c { app = app; world = world } in
    let r = app_report app in
    let recorded = record d {
      diag = diag_record d.diag now r.state e r.relay_on true;
      log = log_control_result r e now d.log;
    } in
    if processed then recorded else d

unfoldable pub logger_periodic_task : Host → Host
logger_periodic_task c =
    let (log, console) = logger_task c.log c.console in record c { log = log; console = console }

-- The counters, as the periodic task and the end of `main` both print them.
abbrev log_counters : Diagnostics → Logger → Logger
log_counters d l =
    let l1 = logger_write_u32 d.sample_count (label " samples=" l) in
    let l2 = logger_write_u32 d.fault_events (label " fault_events=" l1) in
    let l3 = logger_write_u32 d.sensor_error_count (label " sensor_errors=" l2) in
    logger_write_u32 d.warmup_count (label " warmups=" l3)

unfoldable pub diagnostics_task : Host → Host
unfolding logger_periodic_task
diagnostics_task c =
    if logger_level_enabled LogLevel.info c.log
    then (let now = platform_millis c in
        let l1 = label "DIAG uptime=" (log_timestamp now c.log) in
        let l2 = log_counters c.diag (logger_write_u32 (diag_uptime_ms c.diag now) l1) in
        let l3 = label (state_name c.diag.last_state) (label " state=" l2) in
        logger_periodic_task (record c { log = logger_new_line l3 }))
    else c

-- The last line of `main`.
unfoldable pub log_done : Host → Host
log_done c =
    let now = platform_millis c in
    let l1 = label "DONE uptime=" (log_timestamp now c.log) in
    record c {
      log = logger_new_line (log_counters c.diag (logger_write_u32 (diag_uptime_ms c.diag now) l1));
    }
