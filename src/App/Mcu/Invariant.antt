-- ===== src/App/Mcu/Invariant.antt =====
-- What holds of the microcontroller's program whenever it runs, and that each task keeps it.
use climate_node.Prelude.{
  ℕ, ℤ, ◌≡◌, ◌∙◌, refl, sym, ap, subst, inl, inr, arith, Option, some, Bool-cases, Option-cases,
  ◌==◌,
}
use climate_node.Platform.{Board}
use climate_node.Core.Dewpoint.{IsLnTable}
use climate_node.Service.Modbus.{Request}
use climate_node.Service.ModbusRegs.{mb_regs_write_single}
use climate_node.Service.ModbusServer.{Event}
use climate_node.Service.Storage.{DeviceConfig, storage_finalize}
use climate_node.Service.Storage.Persist.{FlashOps}
use climate_node.App.Node.{
  SensorRead, App, World, drive_relay, sample_is_due, app_poll, app_task, app_update_config,
  app_apply_config, app_mark_ticket,
}
use climate_node.App.Node.Relay.{IsReady, update-IsReady, task-IsReady}
use climate_node.App.Mcu.{McuOps, Mcu, sync_registers}
use climate_node.App.Mcu.Handler.{
  changed_config, be16_at, apply_modbus_write_to_app, write_single, respond, handle_modbus_request,
}
use climate_node.App.Mcu.Loop.{control_task, logger_poll_task, start_server, on_event, modbus_task}
use climate_node.App.Mcu.Setting.{save_error-kept, send-kept}

-- The application is ready, on its sensor, and requires the control and communication tickets.
pub record IsRunning {F D : Type 0} (read : SensorRead D) (app : App D) (w : World F D)
    : Type 0 where
  pub ready : IsReady app w
  pub sensor : app.read ≡ some read
  pub required : app.required_tickets ≡ 3

-- The port and the required tickets.
abbrev fixed : {D : Type 0} → App D → Option (SensorRead D) × ℕ
fixed app = (app.read, app.required_tickets)

module _ {D : Type 0} where
  drive-fixed : (app : App D) (b : Board) → fixed (drive_relay app b).0 ≡ fixed app
  unfolding drive_relay
  drive-fixed app b = ground arith

  poll-fixed :
      {F : Type 0} (table : ℕ → ℤ) (app : App D) (read : SensorRead D) (now : ℕ) (w : World F D)
      → fixed (app_poll table app read now w).2 ≡ fixed app
  unfolding app_poll
  poll-fixed table app read now w = drive-fixed _ _

module _ {F D : Type 0} (read : SensorRead D) where
  task-fixed :
      (table : ℕ → ℤ) (app : App D) (now : ℕ) (w : World F D)
      → fixed (app_task table app now w).2 ≡ fixed app
  unfolding app_task
  task-fixed table app now w = elim (Option-cases app.read) [
    | inl e ↦ rw e refl
    | inr (port, e) ↦ elim (Bool-cases (sample_is_due app now)) [
      | inl due ↦ rw (e, due) (poll-fixed table (record app { read = some port }) port now w)
      | inr idle ↦ rw (e, idle) refl
    ]
  ]

  task-IsRunning :
      (table : ℕ → ℤ) (ln : IsLnTable table) (app : App D) (now : ℕ) (w : World F D)
      → IsRunning read app w
      → let (e, processed, app', w') = app_task table app now w in IsRunning read app' w'
  task-IsRunning table ln app now w r =
      let same = task-fixed table app now w in
      record {
        ready = (task-IsReady table ln app now w r.ready).0;
        sensor = ap (λ t. t.0) same ∙ r.sensor;
        required = ap (λ t. t.1) same ∙ r.required;
      }

  update-fixed :
      (fops : FlashOps F) (app : App D) (cfg : DeviceConfig) (w : World F D)
      → fixed (app_update_config fops app cfg w).1 ≡ fixed app
  unfolding app_update_config app_apply_config
  update-fixed fops app cfg w = ground arith

  update-IsRunning :
      (fops : FlashOps F) (app : App D) (cfg : DeviceConfig) (w : World F D)
      → IsRunning read app w
      → let (e, app', w') = app_update_config fops app cfg w in IsRunning read app' w'
  update-IsRunning fops app cfg w r =
      let same = update-fixed fops app cfg w in
      record {
        ready = update-IsReady fops app cfg w r.ready;
        sensor = ap (λ t. t.0) same ∙ r.sensor;
        required = ap (λ t. t.1) same ∙ r.required;
      }

-- The tickets that are set are free.
pub remark :
    {F D : Type 0} {read : SensorRead D} (mask : ℕ) (app : App D) (w : World F D)
    → IsRunning read app w
    → IsRunning read (record app { ticket_mask = mask }) w
remark mask app w r = record {
  ready = record {
    control = r.ready.control;
    safe_off = r.ready.safe_off;
    driven = r.ready.driven;
  };
  sensor = r.sensor;
  required = r.required;
}

-- Of the whole program.
abbrev pub IsRunningMcu : {F D U : Type 0} → SensorRead D → Mcu F D U → Type 0
IsRunningMcu read c = IsRunning read c.app c.world

module _ {F D U : Type 0} (fops : FlashOps F) (ops : McuOps U) (read : SensorRead D) where
  apply-IsRunning :
      (c : Mcu F D U) (addr value : ℕ)
      → IsRunningMcu read c
      → IsRunningMcu read (apply_modbus_write_to_app fops ops c addr value)
  unfolding apply_modbus_write_to_app
  apply-IsRunning c addr value r = elim (Option-cases (changed_config c.app.cfg addr value)) [
    | inl e ↦ rw (apply_modbus_write_to_app, e) r
    | inr (cfg, e) ↦
        rw (apply_modbus_write_to_app, e)
          (subst (λ k. IsRunning read k.0 k.2) (sym (save_error-kept fops ops _ _))
            (update-IsRunning read fops c.app (storage_finalize cfg) c.world r))
  ]

  respond-IsRunning :
      (req : Request) (c : Mcu F D U)
      → IsRunningMcu read c
      → IsRunningMcu read (respond fops ops req c).1
  unfolding respond write_single
  respond-IsRunning req c r = elim (Bool-cases (req.function == 3)) [
    | inl reads ↦ rw reads r
    | inr other ↦ elim (Bool-cases (req.function == 6)) [
      | inr unknown ↦ rw (other, unknown) r
      | inl writes ↦ elim (Bool-cases (req.data_len == 4)) [
        | inr bad ↦ rw (other, writes, bad) r
        | inl four ↦
            elim (Bool-cases (mb_regs_write_single c.regs (be16_at req 0) (be16_at req 2)).0) [
              | inr bad ↦ rw (other, writes, four, bad) r
              | inl done ↦
                  rw (other, writes, four, done) (apply-IsRunning (record c { regs = _ }) _ _ r)
            ]
      ]
    ]
  ]

  handle-IsRunning :
      (req : Request) (c : Mcu F D U)
      → IsRunningMcu read c
      → IsRunningMcu read (handle_modbus_request fops ops req c)
  unfolding handle_modbus_request sync_registers
  handle-IsRunning req c r =
      subst (λ k. IsRunning read k.0 k.2) (sym (send-kept fops ops _ _ _))
        (respond-IsRunning req (sync_registers ops c) r)

  event-IsRunning :
      (e : Event) (c : Mcu F D U) → IsRunningMcu read c → IsRunningMcu read (on_event fops ops e c)
  unfolding on_event app_mark_ticket
  event-IsRunning Event.request c r = remark _ _ _ (handle-IsRunning c.srv.request c r)
  event-IsRunning Event.no_event c r = remark _ _ _ r
  event-IsRunning Event.crc_error c r = remark _ _ _ r
  event-IsRunning Event.address_error c r = remark _ _ _ r
  event-IsRunning Event.function_error c r = remark _ _ _ r
  event-IsRunning Event.length_error c r = remark _ _ _ r
  event-IsRunning Event.overflow c r = remark _ _ _ r

  start-IsRunning : (c : Mcu F D U) → IsRunningMcu read c → IsRunningMcu read (start_server ops c)
  unfolding start_server
  start-IsRunning c r = elim (Bool-cases c.initialized) [ inl e ↦ rw e r | inr e ↦ rw e r ]

  pub modbus-IsRunning :
      (c : Mcu F D U) → IsRunningMcu read c → IsRunningMcu read (modbus_task fops ops c)
  unfolding modbus_task
  modbus-IsRunning c r = event-IsRunning _ _ (start-IsRunning c r)

  pub control-IsRunning :
      (table : ℕ → ℤ) (ln : IsLnTable table) (c : Mcu F D U)
      → IsRunningMcu read c
      → IsRunningMcu read (control_task ops table c)
  unfolding control_task app_mark_ticket
  control-IsRunning table ln c r =
      let now = (ops.millis c.hw).0 in
      let next = task-IsRunning read table ln c.app now c.world r in
      elim (Bool-cases (app_task table c.app now c.world).1) [
        | inl e ↦ rw e (remark _ _ _ next)
        | inr e ↦ rw e next
      ]

  pub logger-IsRunning :
      (c : Mcu F D U) → IsRunningMcu read c → IsRunningMcu read (logger_poll_task ops c)
  unfolding logger_poll_task
  logger-IsRunning c r = r
