-- ===== src/App/Mcu/Watchdog.antt =====
-- When the loop of src/app/main_mcu.c feeds the watchdog.
use climate_node.Prelude.{
  ℕ, ℤ, ◌+◌, ◌≡◌, ◌∙◌, refl, ap, Bool, true, false, ◌&&◌, some, ◌==◌, [], ◌∷◌, if◌then◌else◌, u32,
}
use Prim.Native.Nat.{bit_and, bit_or}
use climate_node.Core.Diagnostics.{Diagnostics}
use climate_node.Service.Storage.Persist.{FlashOps}
use climate_node.App.Scheduler.{Task, Scheduler, sched_is_due, sched_run_once}
use climate_node.App.Scheduler.Once.{sched_run_once_lem}
use climate_node.App.Node.{
  SensorRead, sample_is_due, app_can_feed_watchdog, app_clear_tickets, ticket_comm,
}
use climate_node.App.Mcu.{McuOps, Mcu}
use climate_node.App.Mcu.Loop.{control_task, logger_poll_task, modbus_task, cycle}
use climate_node.App.Mcu.Tickets.{tickets, marks, marked, control-marks, logger-marks, modbus-marks}

-- The scheduler with the three tasks of the program, due at any times.
pub record IsLoop {F D U : Type 0} (fops : FlashOps F) (ops : McuOps U) (table : ℕ → ℤ)
    (s : Scheduler (Mcu F D U)) (control logger modbus : Task (Mcu F D U)) : Type 0 where
  pub tasks : s.tasks ≡ some (control ∷ logger ∷ modbus ∷ [])
  pub count : s.count ≡ 3
  pub control_fn : control.fn ≡ control_task ops table
  pub logger_fn : logger.fn ≡ logger_poll_task ops
  pub modbus_fn : modbus.fn ≡ modbus_task fops ops

-- The condition on the tickets.
abbrev feeds : (ℕ × ℕ) × Diagnostics → Bool
feeds ((mask, required), diag) = bit_and mask required == required

abbrev on_comm : Bool → (ℕ × ℕ) × Diagnostics → (ℕ × ℕ) × Diagnostics
on_comm due before = if due then marked ticket_comm before else before

feeds_lem :
    (modbus sampled : Bool) (diag : Diagnostics)
    → feeds (on_comm modbus ((if sampled then 1 else 0, 3), diag)) ≡ (modbus && sampled)
feeds_lem true true diag = refl
feeds_lem true false diag = refl
feeds_lem false true diag = refl
feeds_lem false false diag = refl

on_comm_diag : (due : Bool) (m : (ℕ × ℕ) × Diagnostics) → (on_comm due m).1 ≡ m.1
on_comm_diag true m = refl
on_comm_diag false m = refl

abbrev pub run_if : {A : Type 0} → Bool → (A → A) → A → A
run_if due f a = if due then f a else a

module _ {F D U : Type 0} (fops : FlashOps F) (ops : McuOps U) (table : ℕ → ℤ) where
  -- The three tasks in a pass of the scheduler, in their order.
  pub pass :
      (s : Scheduler (Mcu F D U)) (control logger modbus : Task (Mcu F D U)) (now : ℕ)
      (c : Mcu F D U)
      → IsLoop fops ops table s control logger modbus
      → (sched_run_once s now c).2
        ≡ run_if (sched_is_due now modbus.next_ms) (modbus_task fops ops) (
            run_if
              (sched_is_due now logger.next_ms)
              (logger_poll_task ops)
              (run_if (sched_is_due now control.next_ms) (control_task ops table) c))
  pass s control logger modbus now c is =
      let tasks = control ∷ logger ∷ modbus ∷ [] in
      ap (λ r. r.2) (sched_run_once_lem s tasks now c is.tasks)
      ∙ rw (is.count, is.control_fn, is.logger_fn, is.modbus_fn) refl

  -- The control task, if it is due.
  control_effect :
      (due : Bool) (c : Mcu F D U) (read : SensorRead D)
      → c.app.read ≡ some read
      → tickets c.app ≡ (0, 3)
      → let d = if due then control_task ops table c else c in
        let sampled = due && sample_is_due c.app (ops.millis c.hw).0 in
        (tickets d.app ≡ (if sampled then 1 else 0, 3))
        × (d.diag.sample_count
            ≡ (if sampled then u32 (c.diag.sample_count + 1) else c.diag.sample_count))
  control_effect false c read sensor none_yet = (none_yet, refl)
  control_effect true c read sensor none_yet =
      let (mask, count) = control-marks ops table c read sensor in
      (
        mask
            ∙ ap (λ t. (if sample_is_due c.app (ops.millis c.hw).0 then bit_or t.0 1 else t.0, t.1))
                none_yet,
        count,
      )

  logger_effect :
      (due : Bool) (c : Mcu F D U) → marks (if due then logger_poll_task ops c else c) ≡ marks c
  logger_effect false c = refl
  logger_effect true c = logger-marks ops c

  modbus_effect :
      (due : Bool) (c : Mcu F D U)
      → marks (if due then modbus_task fops ops c else c) ≡ on_comm due (marks c)
  modbus_effect false c = refl
  modbus_effect true c = modbus-marks fops ops c

  -- The watchdog is fed
  -- A round of the loop feeds the watchdog exactly if the Modbus task and the control task were due
  -- and the control task found a sample due; the count of samples goes up exactly in the last two cases.
  pub feed_lem :
      (s : Scheduler (Mcu F D U)) (control logger modbus : Task (Mcu F D U)) (c : Mcu F D U)
      (read : SensorRead D)
      → IsLoop fops ops table s control logger modbus
      → c.app.read ≡ some read
      → c.app.required_tickets ≡ 3
      → let (now, hw) = ops.millis c.hw in
        let (fed, s', d) = cycle ops s c in
        let sampled = sched_is_due now control.next_ms && sample_is_due c.app (ops.millis hw).0 in
        (fed ≡ (sched_is_due now modbus.next_ms && sampled))
        × (d.diag.sample_count
            ≡ (if sampled then u32 (c.diag.sample_count + 1) else c.diag.sample_count))
  unfolding cycle app_clear_tickets app_can_feed_watchdog
  feed_lem s control logger modbus c read is sensor required =
      let (now, hw) = ops.millis c.hw in
      let control_due = sched_is_due now control.next_ms in
      let logger_due = sched_is_due now logger.next_ms in
      let modbus_due = sched_is_due now modbus.next_ms in
      let d0 = record c { app = app_clear_tickets c.app; hw = hw } in
      let d1 = run_if control_due (control_task ops table) d0 in
      let d2 = run_if logger_due (logger_poll_task ops) d1 in
      let sampled = control_due && sample_is_due c.app (ops.millis hw).0 in
      let (mask, count) = control_effect control_due d0 read sensor (ap (λ r. (0, r)) required) in
      let ran = pass s control logger modbus now d0 is in
      let last = modbus_effect modbus_due d2 in
      let logged = logger_effect logger_due d1 in
      (
        ap (λ d. feeds (marks d)) ran
            ∙ ap feeds last
            ∙ ap (λ m. feeds (on_comm modbus_due m)) logged
            ∙ ap (λ t. feeds (on_comm modbus_due (t, d1.diag))) mask
            ∙ feeds_lem modbus_due sampled d1.diag,
        ap (λ d. d.diag.sample_count) ran
            ∙ ap (λ m. m.1.sample_count) last
            ∙ ap (λ g. g.sample_count) (on_comm_diag modbus_due (marks d2))
            ∙ ap (λ m. m.1.sample_count) logged
            ∙ count,
      )
