-- ===== src/Tests/Mcu.antt =====
-- The theorems on the two programs at concrete data.
use climate_node.Prelude.{
  ℕ, ◌+◌, ◌≤◌, ◌≡◌, ◌≢◌, ◌⊎◌, inl, refl, arith, Bool, true, false, ◌&&◌, none, some, [], ◌∷◌,
  replicate, u32, if◌then◌else◌,
}
use climate_node.Core.Types.{ResetCause}
use climate_node.Core.Controller.{CtrlState, controller_defaults, ctrl_init}
use climate_node.Core.Controller.Safety.{IsFailSafe, IsSane}
use climate_node.Core.Diagnostics.{diag_init}
use climate_node.Service.Modbus.{ParseErr, Request}
use climate_node.Service.ModbusRegs.{mb_regs_init, reg_value}
use climate_node.Service.Modbus.Build.{rtu_frame}
use climate_node.Service.ModbusServer.{Event, Server}
use climate_node.Service.Storage.{storage_validate}
use climate_node.Service.Storage.Flash.{mock_flash_init}
use climate_node.App.Scheduler.{Task, Scheduler, sched_is_due}
use climate_node.App.Scheduler.Keep.{registered}
use climate_node.App.Node.{App, sample_is_due}
use climate_node.App.Mcu.{McuOps, Mcu, sync_registers}
use climate_node.App.Mcu.Handler.{handle_modbus_request}
use climate_node.App.Mcu.Loop.{control_task, logger_poll_task, modbus_task, boot, cycle}
use climate_node.App.Mcu.Reply.{reply}
use climate_node.App.Mcu.Setting.{write_setting_lem}
use climate_node.App.Mcu.Setting.ReadBack.{write_read_back}
use climate_node.App.Mcu.Invariant.{IsRunningMcu}
use climate_node.App.Mcu.Watchdog.{IsLoop}
use climate_node.App.Mcu.Boot.{boot_lem}
use climate_node.App.Mcu.Reach.{Reach, mcu_safe, mcu_feed}
use climate_node.App.Mcu.Answer.{IsSent, request_of, request_answered}
use climate_node.App.Mcu.Reception.{on_uart}
use climate_node.App.Host.{Host}
use climate_node.App.Host.Loop.{register_host_tasks, start, ticks}
use climate_node.App.Host.Laws.{host_relay}
use climate_node.Bsp.Uart.{Uart, take_chunks}
use climate_node.Bsp.Uart.Receive.{dma_write}
use climate_node.Bsp.Stm32.Flash.{Memory, stm32_flash}
use climate_node.Driver.Stub.{StubSensor, stub_sensor_read}
use climate_node.Tests.Service.{settings, static_log}
use climate_node.Tests.Table.{ln_table, ln_table-IsLnTable}

-- Hardware that counts milliseconds, one for each read of the clock.
abbrev ops : McuOps ℕ
ops = record {
  platform_init = λ u. u;
  reset_cause_get = λ u. (ResetCause.watchdog, u);
  wdg_init = λ t u. u;
  wfi = λ u. u;
  millis = λ u. (u, u + 1);
  tx_dma_async = λ bytes u. (true, u);
  async_init = λ u. u;
  wdg_feed = λ u. u;
}

abbrev blank_app : {D : Type 0} → App D
blank_app = record {
  ctrl = ctrl_init none;
  read = none;
  cfg = settings;
  next_sample_ms = 0;
  relay_prev = false;
  ticket_mask = 0;
  required_tickets = 0;
}

abbrev blank : Mcu Memory StubSensor ℕ
blank = record {
  app = blank_app;
  diag = diag_init 0;
  regs = mb_regs_init;
  srv = record {
    buf = replicate 256 0;
    len = 0;
    last_byte_ms = 0;
    silence_ms = 0;
    slave_addr = 0;
    recv = none;
    event = Event.no_event;
    request = record { slave_addr = 0; function = 0; bytes = none; data_len = 0 };
    parse_error = ParseErr.ok;
    rx_byte_count = 0;
    frame_count = 0;
    error_count = 0;
    overflow_count = 0;
  };
  initialized = false;
  log = static_log;
  world = record {
    board = record { relay = true; backup = 2 };
    flash = λ a. 0xffffffff;
    driver = record { step = 0; millis = 0 };
  };
  hw = 0;
}

abbrev no_task : {A : Type 0} → Task A
no_task = record { period_ms = 0; next_ms = 0; fn = λ a. a; name = "" }

abbrev booted : Scheduler (Mcu Memory StubSensor ℕ) × Mcu Memory StubSensor ℕ
booted = boot stm32_flash ops ln_table stub_sensor_read (no_task ∷ no_task ∷ no_task ∷ []) blank

boot_lem_example :
    IsLoop stm32_flash ops ln_table booted.0
      (registered 1000 (control_task ops ln_table) "control")
      (registered 10 (logger_poll_task ops) "logger")
      (registered 1 (modbus_task stm32_flash ops) "modbus")
    × IsRunningMcu stub_sensor_read booted.1
    × (booted.1.world.board.relay ≡ false)
    × (storage_validate booted.1.app.cfg ≡ true)
    × (booted.1.app.ctrl.cfg ≡ controller_defaults)
boot_lem_example = boot_lem stm32_flash ops ln_table stub_sensor_read no_task no_task no_task blank

-- One round after the start.
abbrev once : Bool × Scheduler (Mcu Memory StubSensor ℕ) × Mcu Memory StubSensor ℕ
once = cycle ops booted.0 booted.1

cycled_once : Reach stm32_flash ops ln_table stub_sensor_read once.1 once.2
cycled_once = Reach.cycled (Reach.booted no_task no_task no_task blank)

mcu_safe_example :
    IsFailSafe once.2.app.ctrl
    × IsSane once.2.app.ctrl.cfg
    × ((once.2.world.board.relay ≡ false) ⊎ (once.2.app.relay_prev ≡ true))
mcu_safe_example = mcu_safe stm32_flash ops ln_table ln_table-IsLnTable cycled_once

mcu_feed_example :
    (control : Task (Mcu Memory StubSensor ℕ)) × (logger : Task (Mcu Memory StubSensor ℕ))
    × (modbus : Task (Mcu Memory StubSensor ℕ)) × (once.1.tasks
        ≡ some (control ∷ logger ∷ modbus ∷ []))
    × let now = once.2.hw in
      let (fed, s', d) = cycle ops once.1 once.2 in
      let sampled = sched_is_due now control.next_ms && sample_is_due once.2.app (now + 1) in
      (fed ≡ (sched_is_due now modbus.next_ms && sampled))
      × (d.diag.sample_count
          ≡ (if sampled then u32 (once.2.diag.sample_count + 1) else once.2.diag.sample_count))
mcu_feed_example = mcu_feed stm32_flash ops ln_table ln_table-IsLnTable cycled_once

abbrev read_settings : Request
read_settings = record {
  slave_addr = 1;
  function = 3;
  bytes = some (1 ∷ 0 ∷ 0 ∷ 3 ∷ []);
  data_len = 4;
}

abbrev write_period : Request
write_period = record {
  slave_addr = 1;
  function = 6;
  bytes = some (1 ∷ 2 ∷ 7 ∷ 0xd0 ∷ []);
  data_len = 4;
}

write_setting_lem_example :
    let after = handle_modbus_request stm32_flash ops write_period blank in
    let regs = (sync_registers ops after).regs in
    (storage_validate after.app.cfg ≡ true)
    × (reg_value regs 0x102 ≡ some 2000)
    × ((other : ℕ)
        → 0x100 ≤ other
        → other ≢ 0x102
        → reg_value regs other ≡ reg_value (sync_registers ops blank).regs other)
write_setting_lem_example = write_setting_lem stm32_flash ops write_period blank refl refl refl

abbrev host : Host
host = record {
  app = blank_app;
  diag = diag_init 0;
  log = static_log;
  console = [];
  world = record {
    board = record { relay = true; backup = 0 };
    flash = mock_flash_init;
    driver = 9;
  };
  now = 0;
}

host_relay_example :
    let after =
      ticks 300
        (register_host_tasks ln_table (no_task ∷ no_task ∷ no_task ∷ no_task ∷ []))
        (start host) in
    (after.world.board.relay ≡ false) ⊎ (after.app.ctrl.state ≡ CtrlState.run)
host_relay_example = host_relay ln_table ln_table-IsLnTable no_task no_task no_task no_task host 300

abbrev uart : Uart (Server ℕ × ℕ)
uart = record {
  last_rx_pos = 248;
  callback = some (on_uart (λ req n. n + 1));
  rs485_mode = false;
  gpio_bsrr = none;
  gpio_brr = none;
  de_pin_mask = 0;
}

abbrev server : Server ℕ
server = record blank.srv { slave_addr = 1 }

-- The port as the program starts it.
abbrev port : Uart (Server ℕ × ℕ)
port = record uart { callback = some (on_uart (λ req hw. hw)) }

abbrev serving : Mcu Memory StubSensor ℕ
serving = record blank { srv = server; initialized = true }

request_answered_example :
    let (buf, pos) = dma_write (replicate 256 0) 248 (rtu_frame 1 3 (1 ∷ 0 ∷ 0 ∷ 3 ∷ [])) in
    let (srv, hw) = (take_chunks buf pos port (server, 0)).1 in
    let d = record serving { srv = srv; hw = hw } in
    let after = modbus_task stm32_flash ops d in
    let regs = (sync_registers ops (record d { hw = (ops.millis hw).1 })).regs in
    IsSent ops 0 (reply (request_of 1 3 (1 ∷ 0 ∷ 0 ∷ 3 ∷ [])) regs) after.hw
    × (after.srv.event ≡ Event.no_event)
request_answered_example =
    request_answered stm32_flash ops port (replicate 256 0) serving 3 1 0 0 3 refl (omega arith)
      refl (λ u bytes reads. refl) refl refl (inl refl)
      (omega arith, (omega arith, (omega arith, (omega arith, (omega arith, (omega arith, tt))))))

abbrev read_period : Request
read_period = record {
  slave_addr = 1;
  function = 3;
  bytes = some (1 ∷ 2 ∷ 0 ∷ 1 ∷ []);
  data_len = 4;
}

write_read_back_example :
    let after = handle_modbus_request stm32_flash ops write_period blank in
    IsSent ops after.hw
      (rtu_frame 1 3 (2 ∷ 0x07 ∷ 0xd0 ∷ []))
      (handle_modbus_request stm32_flash ops read_period after).hw
write_read_back_example =
    write_read_back stm32_flash ops write_period read_period blank
      (handle_modbus_request stm32_flash ops write_period blank) refl refl refl refl
      (λ u bytes reads. refl) refl refl
      (omega arith, (omega arith, (omega arith, (omega arith, (omega arith, tt))))) refl refl
