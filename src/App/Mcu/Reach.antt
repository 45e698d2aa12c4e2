-- ===== src/App/Mcu/Reach.antt =====
-- Every state of src/app/main_mcu.c that its loop and its interrupts reach.
use climate_node.Prelude.{
  ℕ, ℤ, ◌+◌, ◌≡◌, ◌⊎◌, Bool-cases, ◌∙◌, refl, sym, ap, subst, inl, inr, arith, Bool, true, false,
  ◌&&◌, Option, some, List, [], ◌∷◌, if◌then◌else◌, u32,
}
use climate_node.Core.Dewpoint.{IsLnTable}
use climate_node.Core.Controller.Safety.{IsFailSafe, IsSane}
use climate_node.Service.ModbusServer.{UartEvent, modbus_uart_event_callback}
use climate_node.Service.Storage.Persist.{FlashOps}
use climate_node.App.Scheduler.{Task, Scheduler, sched_is_due, reschedule, sched_run_once}
use climate_node.App.Scheduler.Once.{sched_run_once_lem}
use climate_node.App.Node.{SensorRead, app_clear_tickets, sample_is_due}
use climate_node.App.Mcu.{McuOps, Mcu}
use climate_node.App.Mcu.Loop.{control_task, logger_poll_task, modbus_task, boot, cycle}
use climate_node.App.Mcu.Boot.{boot_lem}
use climate_node.App.Mcu.Invariant.{
  IsRunningMcu, remark, control-IsRunning, logger-IsRunning, modbus-IsRunning,
}
use climate_node.App.Mcu.Watchdog.{IsLoop, run_if, pass, feed_lem}

-- A task after a pass.
abbrev next_task : {A : Type 0} → ℕ → Task A → Task A
next_task now t = if sched_is_due now t.next_ms then reschedule now t else t

same_fn : {A : Type 0} (now : ℕ) (t : Task A) → (next_task now t).fn ≡ t.fn
same_fn now t = ground arith

module _ {F D U : Type 0} (fops : FlashOps F) (ops : McuOps U) (table : ℕ → ℤ) where
  -- The states between two rounds of the loop: a round, or a UART interrupt with any bytes.
  pub data Reach (read : SensorRead D) : Scheduler (Mcu F D U) → Mcu F D U → Type 0 where
    booted :
        (x y z : Task (Mcu F D U)) (c : Mcu F D U)
        → Reach read
            (boot fops ops table read (x ∷ y ∷ z ∷ []) c).0
            (boot fops ops table read (x ∷ y ∷ z ∷ []) c).1
    cycled :
        {s : Scheduler (Mcu F D U)} {c : Mcu F D U}
        → Reach read s c
        → Reach read (cycle ops s c).1 (cycle ops s c).2
    interrupted :
        {s : Scheduler (Mcu F D U)} {c : Mcu F D U} (bytes : Option (List ℕ)) (len : ℕ)
        (event : UartEvent)
        → Reach read s c
        → Reach read s (record c {
          srv = (modbus_uart_event_callback (λ req hw. hw) bytes len event c.srv c.hw).0;
        })

  -- The scheduler has the program's three tasks.
  abbrev pub HasTasks : Scheduler (Mcu F D U) → Type 0
  HasTasks s =
      (control : Task (Mcu F D U)) × (logger : Task (Mcu F D U)) × (modbus : Task (Mcu F D U))
      × IsLoop fops ops table s control logger modbus

  run-IsRunning :
      {read : SensorRead D} (f : Mcu F D U → Mcu F D U)
      → ((c : Mcu F D U) → IsRunningMcu read c → IsRunningMcu read (f c))
      → (due : Bool) (c : Mcu F D U) → IsRunningMcu read c
      → IsRunningMcu read (run_if due f c)
  run-IsRunning f h true c r = h c r
  run-IsRunning f h false c r = r

  -- A pass of the scheduler changes no task's function.
  pass-HasTasks :
      (s : Scheduler (Mcu F D U)) (now : ℕ) (c : Mcu F D U)
      → HasTasks s
      → HasTasks (sched_run_once s now c).1
  pass-HasTasks s now c (control, logger, modbus, is) =
      subst HasTasks
        (sym (ap (λ r. r.1) (sched_run_once_lem s (control ∷ logger ∷ modbus ∷ []) now c is.tasks)))
        (
          next_task now control,
          next_task now logger,
          next_task now modbus,
          record {
            tasks = rw is.count refl;
            count = is.count;
            control_fn = same_fn now control ∙ is.control_fn;
            logger_fn = same_fn now logger ∙ is.logger_fn;
            modbus_fn = same_fn now modbus ∙ is.modbus_fn;
          },
        )

  module _ (ln : IsLnTable table) where
    pass-IsRunning :
        {read : SensorRead D} (s : Scheduler (Mcu F D U)) (control logger modbus : Task (Mcu F D U))
        (now : ℕ) (c : Mcu F D U)
        → IsLoop fops ops table s control logger modbus
        → IsRunningMcu read c
        → IsRunningMcu read (sched_run_once s now c).2
    pass-IsRunning {read} s control logger modbus now c is r =
        let d1 = run_if (sched_is_due now control.next_ms) (control_task ops table) c in
        let d2 = run_if (sched_is_due now logger.next_ms) (logger_poll_task ops) d1 in
        let r1 : IsRunningMcu read d1 =
          run-IsRunning (control_task ops table) (control-IsRunning fops ops read table ln) _ c r in
        let r2 : IsRunningMcu read d2 =
          run-IsRunning (logger_poll_task ops) (logger-IsRunning fops ops read) _ d1 r1 in
        subst (IsRunningMcu read) (sym (pass fops ops table s control logger modbus now c is))
          (run-IsRunning (modbus_task fops ops) (modbus-IsRunning fops ops read) _ d2 r2)

    cycle-IsRunning :
        {read : SensorRead D} (s : Scheduler (Mcu F D U)) (c : Mcu F D U)
        → HasTasks s
        → IsRunningMcu read c
        → IsRunningMcu read (cycle ops s c).2 × HasTasks (cycle ops s c).1
    unfolding cycle app_clear_tickets
    cycle-IsRunning s c (control, logger, modbus, is) r = (
      pass-IsRunning s control logger modbus _ _ is (remark 0 c.app c.world r),
      pass-HasTasks s _ _ (control, logger, modbus, is),
    )

    Reach-IsRunning :
        {read : SensorRead D} {s : Scheduler (Mcu F D U)} {c : Mcu F D U}
        → Reach read s c
        → IsRunningMcu read c × HasTasks s
    Reach-IsRunning {read} (booted x y z c) =
        let (is, running, off, valid, defaults) = boot_lem fops ops table read x y z c in
        (running, (_, _, _, is))
    Reach-IsRunning (cycled {s} {c} h) =
        let (running, tasks) = Reach-IsRunning h in cycle-IsRunning s c tasks running
    Reach-IsRunning (interrupted bytes len event h) = Reach-IsRunning h

    -- In every reachable state the controller is fail-safe and its thresholds leave a hysteresis band,
    -- and the relay output is off unless the application turned it on.
    pub mcu_safe :
        {read : SensorRead D} {s : Scheduler (Mcu F D U)} {c : Mcu F D U}
        → Reach read s c
        → IsFailSafe c.app.ctrl
          × IsSane c.app.ctrl.cfg
          × ((c.world.board.relay ≡ false) ⊎ (c.app.relay_prev ≡ true))
    mcu_safe {read} {s} {c} h =
        let r = (Reach-IsRunning h).0.ready in
        let (seen, v) = r.control in
        (
          v.flags,
          v.sane,
          elim (Bool-cases c.world.board.relay) [ inl on ↦ inr (r.driven on) | inr off ↦ inl off ],
        )

    -- In every reachable state the scheduler has its three tasks, and the next round of the loop feeds
    -- the watchdog exactly if the Modbus task and the control task are due and the control task finds a
    -- sample due; the count of samples goes up exactly in the last two cases.
    pub mcu_feed :
        {read : SensorRead D} {s : Scheduler (Mcu F D U)} {c : Mcu F D U}
        → Reach read s c
        → (control : Task (Mcu F D U)) × (logger : Task (Mcu F D U)) × (modbus : Task (Mcu F D U))
          × (s.tasks ≡ some (control ∷ logger ∷ modbus ∷ []))
          × let (now, hw) = ops.millis c.hw in
            let (fed, s', d) = cycle ops s c in
            let sampled =
              sched_is_due now control.next_ms && sample_is_due c.app (ops.millis hw).0 in
            (fed ≡ (sched_is_due now modbus.next_ms && sampled))
            × (d.diag.sample_count
                ≡ (if sampled then u32 (c.diag.sample_count + 1) else c.diag.sample_count))
    mcu_feed {read} {s} {c} h =
        let (r, (control, logger, modbus, is)) = Reach-IsRunning h in
        (
          control,
          logger,
          modbus,
          is.tasks,
          feed_lem fops ops table s control logger modbus c read is r.sensor r.required,
        )
