-- ===== src/App/Mcu/Tickets.antt =====
-- What each task of src/app/main_mcu.c does to the watchdog tickets.
use climate_node.Prelude.{
  ℕ, ℤ, ◌+◌, ◌≡◌, ◌∙◌, refl, ap, inl, inr, arith, Bool, true, some, if◌then◌else◌, Bool-cases,
  Option-cases, ◌==◌, u32,
}
use Prim.Native.Nat.{bit_or}
use climate_node.Platform.{Board}
use climate_node.Core.Types.{Err}
use climate_node.Core.Controller.{CtrlState}
use climate_node.Core.Diagnostics.{Diagnostics, diag_record}
use climate_node.Service.Modbus.{Request}
use climate_node.Service.ModbusRegs.{mb_regs_write_single}
use climate_node.Service.ModbusServer.{Event}
use climate_node.Service.Storage.{DeviceConfig, storage_finalize}
use climate_node.Service.Storage.Persist.{FlashOps}
use climate_node.App.Node.{
  SensorRead, App, World, drive_relay, sample_is_due, app_poll, app_task, app_update_config,
  app_apply_config, app_mark_ticket, ticket_control, ticket_comm,
}
use climate_node.App.Node.Relay.{poll-processes}
use climate_node.App.Mcu.{McuOps, Mcu, sync_registers}
use climate_node.App.Mcu.Handler.{
  changed_config, be16_at, apply_modbus_write_to_app, write_single, respond, handle_modbus_request,
}
use climate_node.App.Mcu.Loop.{control_task, logger_poll_task, start_server, on_event, modbus_task}
use climate_node.App.Mcu.Setting.{save_error-kept, send-kept}

-- The tickets, and those that are required.
abbrev pub tickets : {D : Type 0} → App D → ℕ × ℕ
tickets app = (app.ticket_mask, app.required_tickets)

module _ {D : Type 0} where
  drive-tickets : (app : App D) (b : Board) → tickets (drive_relay app b).0 ≡ tickets app
  unfolding drive_relay
  drive-tickets app b = ground arith

  poll-tickets :
      {F : Type 0} (table : ℕ → ℤ) (app : App D) (read : SensorRead D) (now : ℕ) (w : World F D)
      → tickets (app_poll table app read now w).2 ≡ tickets app
  unfolding app_poll
  poll-tickets table app read now w = drive-tickets _ _

  -- A poll processes a sample if one is due, and touches no ticket.
  pub task-tickets :
      {F : Type 0} (table : ℕ → ℤ) (app : App D) (read : SensorRead D) (now : ℕ) (w : World F D)
      → app.read ≡ some read
      → let (e, processed, app', w') = app_task table app now w in
        (tickets app' ≡ tickets app) × (processed ≡ sample_is_due app now)
  unfolding app_task
  task-tickets table app read now w h = elim (Bool-cases (sample_is_due app now)) [
    | inl due ↦
        let polled = record app { read = some read } in
        rw (h, due) (poll-tickets table polled read now w, poll-processes table polled read now w)
    | inr idle ↦ rw (h, idle) (refl, refl)
  ]

  update-tickets :
      {F : Type 0} (fops : FlashOps F) (app : App D) (cfg : DeviceConfig) (w : World F D)
      → tickets (app_update_config fops app cfg w).1 ≡ tickets app
  unfolding app_update_config app_apply_config
  update-tickets fops app cfg w = ground arith

-- What the watchdog's condition and its record of samples depend on.
abbrev pub marks : {F D U : Type 0} → Mcu F D U → (ℕ × ℕ) × Diagnostics
marks c = (tickets c.app, c.diag)

abbrev pub marked : ℕ → (ℕ × ℕ) × Diagnostics → (ℕ × ℕ) × Diagnostics
marked ticket ((mask, required), diag) = ((bit_or mask ticket, required), diag)

module _ {F D U : Type 0} (fops : FlashOps F) (ops : McuOps U) where
  apply-marks :
      (c : Mcu F D U) (addr value : ℕ)
      → marks (apply_modbus_write_to_app fops ops c addr value) ≡ marks c
  unfolding apply_modbus_write_to_app
  apply-marks c addr value = elim (Option-cases (changed_config c.app.cfg addr value)) [
    | inl e ↦ rw (apply_modbus_write_to_app, e) refl
    | inr (cfg, e) ↦
        rw (apply_modbus_write_to_app, e)
          (ap (λ k. (tickets k.0, k.1)) (save_error-kept fops ops _ _)
            ∙ ap (λ t. (t, c.diag)) (update-tickets fops c.app (storage_finalize cfg) c.world))
  ]

  write-marks : (req : Request) (c : Mcu F D U) → marks (write_single fops ops req c).1 ≡ marks c
  unfolding write_single
  write-marks req c = elim (Bool-cases (req.data_len == 4)) [
    | inr bad ↦ rw bad refl
    | inl four ↦ elim (Bool-cases (mb_regs_write_single c.regs (be16_at req 0) (be16_at req 2)).0) [
      | inr bad ↦ rw (four, bad) refl
      | inl done ↦ rw (four, done) (apply-marks _ _ _)
    ]
  ]

  respond-marks : (req : Request) (c : Mcu F D U) → marks (respond fops ops req c).1 ≡ marks c
  unfolding respond
  respond-marks req c = elim (Bool-cases (req.function == 3)) [
    | inl read ↦ rw read refl
    | inr other ↦ elim (Bool-cases (req.function == 6)) [
      | inl write ↦ rw (other, write) (write-marks req c)
      | inr unknown ↦ rw (other, unknown) refl
    ]
  ]

  sync-marks : (c : Mcu F D U) → marks (sync_registers ops c) ≡ marks c
  unfolding sync_registers
  sync-marks c = refl

  handle-marks :
      (req : Request) (c : Mcu F D U) → marks (handle_modbus_request fops ops req c) ≡ marks c
  unfolding handle_modbus_request
  handle-marks req c =
      ap (λ k. (tickets k.0, k.1)) (send-kept fops ops _ _ _)
      ∙ respond-marks req (sync_registers ops c)
      ∙ sync-marks c

  event-marks :
      (e : Event) (c : Mcu F D U) → marks (on_event fops ops e c) ≡ marked ticket_comm (marks c)
  unfolding on_event app_mark_ticket
  event-marks Event.request c = ap (marked ticket_comm) (handle-marks c.srv.request c)
  event-marks Event.no_event c = refl
  event-marks Event.crc_error c = refl
  event-marks Event.address_error c = refl
  event-marks Event.function_error c = refl
  event-marks Event.length_error c = refl
  event-marks Event.overflow c = refl

  start-marks : (c : Mcu F D U) → marks (start_server ops c) ≡ marks c
  unfolding start_server
  start-marks c = ground arith

  -- The Modbus task marks its ticket whatever happened.
  pub modbus-marks : (c : Mcu F D U) → marks (modbus_task fops ops c) ≡ marked ticket_comm (marks c)
  unfolding modbus_task
  modbus-marks c = event-marks _ _ ∙ ap (marked ticket_comm) (start-marks c)

counts :
    (d : Diagnostics) (now : ℕ) (s : CtrlState) (e : Err) (relay : Bool)
    → (diag_record d now s e relay true).sample_count ≡ u32 (d.sample_count + 1)
unfolding diag_record
counts d now s e relay = ground arith

module _ {F D U : Type 0} (ops : McuOps U) where
  pub logger-marks : (c : Mcu F D U) → marks (logger_poll_task ops c) ≡ marks c
  unfolding logger_poll_task
  logger-marks c = refl

  -- The control task marks its ticket and counts a sample if one is due, and neither if none is.
  pub control-marks :
      (table : ℕ → ℤ) (c : Mcu F D U) (read : SensorRead D)
      → c.app.read ≡ some read
      → let d = control_task ops table c in
        let ((mask, required), diag) = marks c in
        let due = sample_is_due c.app (ops.millis c.hw).0 in
        (tickets d.app ≡ (if due then bit_or mask ticket_control else mask, required))
        × (d.diag.sample_count ≡ (if due then u32 (diag.sample_count + 1) else diag.sample_count))
  unfolding control_task app_mark_ticket
  control-marks table c read h =
      let now = (ops.millis c.hw).0 in
      let (same, processed) = task-tickets table c.app read now c.world h in
      elim (Bool-cases (sample_is_due c.app now)) [
        | inl due ↦
            rw (processed, due) (ap (λ t. (bit_or t.0 ticket_control, t.1)) same, counts _ _ _ _ _)
        | inr idle ↦ rw (processed, idle) (same, refl)
      ]
