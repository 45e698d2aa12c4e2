-- ===== src/App/Host/Loop.antt =====
-- `main` of src/app/main_host.c.
use climate_node.Prelude.{ℕ, zero, suc, some, List, ℤ, codes}
use climate_node.Core.Diagnostics.{diag_init}
use climate_node.Driver.Mock.{mock_sensor_init, mock_sensor_read}
use climate_node.Service.Logger.{
  LogLevel, logger_init, logger_set_level, logger_write_str, logger_new_line, logger_flush,
}
use climate_node.Service.Storage.Flash.{Flash, mock_flash_init}
use climate_node.Service.Storage.Persist.{host_flash}
use climate_node.App.Scheduler.{Task, Scheduler, sched_init, sched_register, sched_run_once}
use climate_node.App.Node.{World, app_init}
use climate_node.App.Host.{
  Host, control_task, logger_periodic_task, diagnostics_task, log_done, platform_millis,
  platform_host_tick, platform_wfi,
}

-- `logger_flush` with the console.
abbrev pub flush : Host → Host
flush c =
    let (log, console) = logger_flush c.log c.console in record c { log = log; console = console }

-- The world once `mock_sensor_init` and `mock_flash_init` have run.
abbrev pub erased : Host → World Flash ℕ
erased c = record c.world { flash = mock_flash_init; driver = mock_sensor_init c.world.driver }

-- `main` before its loop.
unfoldable pub start : Host → Host
start c =
    let (app, world) = app_init host_flash c.app (some mock_sensor_read) (erased c) in
    flush (record c {
      app = app;
      world = world;
      diag = diag_init 0;
      log = logger_new_line (
          logger_write_str (codes "[BOOT] climate-node host runner started")
            (logger_set_level LogLevel.info (logger_init c.log)));
    })

-- One round of the loop, and `n` of them.
unfoldable pub tick : Scheduler Host → Host → Scheduler Host × Host
tick s c =
    let t = platform_host_tick 10 c in
    let (ran, s', d) = sched_run_once s (platform_millis t) t in (s', platform_wfi d)

unfoldable pub ticks : ℕ → Scheduler Host → Host → Host
ticks zero s c = c
ticks (suc n) s c = let (s', d) = tick s c in ticks n s' d

module _ (table : ℕ → ℤ) where
  -- The registrations, in an array that `main` leaves uninitialised.
  unfoldable pub register_host_tasks : List (Task Host) → Scheduler Host
  register_host_tasks slots =
      let s = sched_init (some slots) 4 in
      let s1 = (sched_register s 50 (some (control_task table)) "control").1 in
      let s2 = (sched_register s1 10 (some logger_periodic_task) "logger").1 in
      (sched_register s2 1000 (some diagnostics_task) "diag").1

  unfoldable pub run : List (Task Host) → Host → Host
  run slots c = flush (log_done (flush (ticks 300 (register_host_tasks slots) (start c))))
