-- ===== src/App/Mcu/Loop.antt =====
-- The tasks, the start and the endless loop of src/app/main_mcu.c. The sensor is a parameter; the program
-- passes that of src/driver/stub_sensor.c.
use climate_node.Prelude.{ℕ, Bool, true, none, some, List, [], ◌∷◌, ℤ, if◌then◌else◌}
use climate_node.Core.Controller.{controller_defaults, ctrl_init_extended}
use climate_node.Core.Diagnostics.{diag_init, diag_record}
use climate_node.Service.Logger.{logger_init, logger_task}
use climate_node.Service.ModbusRegs.{mb_regs_init}
use climate_node.Service.ModbusServer.{
  Event, modbus_server_init, modbus_server_task, modbus_server_clear_event,
}
use climate_node.Service.Storage.Persist.{FlashOps}
use climate_node.App.Scheduler.{Task, Scheduler, sched_init, sched_register, sched_run_once}
use climate_node.App.Node.{
  SensorRead, ticket_control, ticket_comm, app_init, app_task, app_report, app_can_feed_watchdog,
  app_clear_tickets, app_mark_ticket,
}
use climate_node.App.Mcu.{McuOps, Mcu}
use climate_node.App.Mcu.Handler.{handle_modbus_request}

module _ {U : Type 0} (ops : McuOps U) where
  -- Empty data is not transmitted; a refusal is ignored.
  abbrev pub platform_write : List ℕ → U → U
  platform_write [] hw = hw
  platform_write (b ∷ bs) hw = (ops.tx_dma_async (b ∷ bs) hw).1

  -- The chunks that `logger_task` gives to `platform_write`.
  abbrev pub write_chunks : List (List ℕ) → U → U
  write_chunks [] hw = hw
  write_chunks (c ∷ cs) hw = write_chunks cs (platform_write c hw)

module _ {F D U : Type 0} where
  abbrev pub mark : ℕ → Mcu F D U → Mcu F D U
  mark ticket c = record c { app = app_mark_ticket c.app ticket }

  abbrev pub clear_server : Mcu F D U → Mcu F D U
  clear_server c = record c { srv = modbus_server_clear_event c.srv }

  module _ (ops : McuOps U) where
    unfoldable pub logger_poll_task : Mcu F D U → Mcu F D U
    logger_poll_task c =
        let (log, out) = logger_task c.log [] in
        record c { log = log; hw = write_chunks ops out c.hw }

    -- The first call starts the server, with no byte source, and the UART.
    unfoldable pub start_server : Mcu F D U → Mcu F D U
    start_server c = if c.initialized then c else record c {
      srv = modbus_server_init 1 5 none c.srv;
      hw = ops.async_init c.hw;
      initialized = true;
    }

    module _ (table : ℕ → ℤ) where
      unfoldable pub control_task : Mcu F D U → Mcu F D U
      control_task c =
          let (now, hw) = ops.millis c.hw in
          let (e, processed, app, world) = app_task table c.app now c.world in
          let d = record c { app = app; world = world; hw = hw } in
          let r = app_report app in
          let recorded = record d { diag = diag_record d.diag now r.state e r.relay_on true } in
          if processed then mark ticket_control recorded else d

    -- One round of the loop, and whether it fed the watchdog.
    unfoldable pub cycle :
        Scheduler (Mcu F D U) → Mcu F D U → Bool × Scheduler (Mcu F D U) × Mcu F D U
    cycle s c =
        let (now, hw) = ops.millis c.hw in
        let cleared = record c { app = app_clear_tickets c.app; hw = hw } in
        let (ran, s', d) = sched_run_once s now cleared in
        let fed = app_can_feed_watchdog d.app in
        (fed, s', record d { hw = ops.wfi (if fed then ops.wdg_feed d.hw else d.hw) })

  module _ (fops : FlashOps F) (ops : McuOps U) where
    -- What is done on the event; each branch marks the ticket.
    unfoldable pub on_event : Event → Mcu F D U → Mcu F D U
    on_event Event.request c =
        mark ticket_comm (clear_server (handle_modbus_request fops ops c.srv.request c))
    on_event Event.no_event c = mark ticket_comm c
    on_event e c = mark ticket_comm (clear_server c)

    unfoldable pub modbus_task : Mcu F D U → Mcu F D U
    modbus_task c =
        let d = start_server ops c in
        let (now, hw) = ops.millis d.hw in
        let (e, srv, hw') = modbus_server_task (λ req u. u) now d.srv hw in
        on_event srv.event (record d { srv = srv; hw = hw' })

    module _ (table : ℕ → ℤ) where
      -- The three registrations, in an array that `main` leaves uninitialised.
      unfoldable pub register_tasks : List (Task (Mcu F D U)) → ℕ → Scheduler (Mcu F D U)
      register_tasks slots period =
          let s = sched_init (some slots) 3 in
          let s1 = (sched_register s period (some (control_task ops table)) "control").1 in
          let s2 = (sched_register s1 10 (some (logger_poll_task ops)) "logger").1 in
          (sched_register s2 1 (some modbus_task) "modbus").1

      -- `main` before its loop.
      unfoldable pub boot :
          SensorRead D → List (Task (Mcu F D U)) → Mcu F D U → Scheduler (Mcu F D U) × Mcu F D U
      boot read slots c =
          let (cause, hw1) = ops.reset_cause_get (ops.platform_init c.hw) in
          let hw2 = ops.wdg_init 2000 hw1 in
          let (app, world) = app_init fops c.app (some read) c.world in
          let (ctrl, board) = ctrl_init_extended (some controller_defaults) cause world.board in
          let (now, hw3) = ops.millis hw2 in
          let d = record c {
            app = record app { ctrl = ctrl };
            world = record world { board = board };
            diag = diag_init now;
            log = logger_init c.log;
            regs = mb_regs_init;
            hw = hw3;
          } in
          (register_tasks slots d.app.ctrl.cfg.sample_period_ms, d)
