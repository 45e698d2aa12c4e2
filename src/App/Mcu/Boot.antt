-- ===== src/App/Mcu/Boot.antt =====
-- The start of src/app/main_mcu.c: what the program begins its loop with.
use climate_node.Prelude.{
  ℕ, ℤ, ◌≡◌, ◌∙◌, refl, ap, subst, inl, inr, arith, true, false, some, [], ◌∷◌,
}
use climate_node.Core.Controller.{controller_defaults}
use climate_node.Core.Controller.Boot.{extended-cfg, extended-relay, ctrl_init_extended-WellFormed}
use climate_node.Service.Storage.{storage_validate}
use climate_node.Service.Storage.Laws.{load_valid}
use climate_node.Service.Storage.Persist.{FlashOps, is_ok, storage_load}
use climate_node.App.Scheduler.{Task, sched_init, sched_register}
use climate_node.App.Scheduler.Keep.{registered}
use climate_node.App.Node.{SensorRead, App, World, app_init}
use climate_node.App.Node.Relay.{init_relay}
use climate_node.App.Mcu.{McuOps, Mcu}
use climate_node.App.Mcu.Loop.{control_task, logger_poll_task, modbus_task, register_tasks, boot}
use climate_node.App.Mcu.Invariant.{IsRunningMcu}
use climate_node.App.Mcu.Watchdog.{IsLoop}

init_valid :
    {F D : Type 0} (fops : FlashOps F) (app : App D) (read : SensorRead D) (w : World F D)
    → storage_validate (app_init fops app (some read) w).0.cfg ≡ true
unfolding app_init
init_valid fops app read w =
    let (valid, how) = load_valid fops w.flash app.cfg in
    elim how [
      | inl ok ↦
          let fine : is_ok (storage_load fops w.flash app.cfg).0 ≡ true = ap is_ok ok in
          rw fine valid
      | inr (bad, defaults) ↦
          let failed : is_ok (storage_load fops w.flash app.cfg).0 ≡ false = ap is_ok bad in
          rw failed (subst (λ c. storage_validate c ≡ true) defaults valid)
    ]

module _ {F D U : Type 0} (fops : FlashOps F) (ops : McuOps U) (table : ℕ → ℤ) where
  register_lem :
      (x y z : Task (Mcu F D U)) (period : ℕ)
      → period ≡ 1000
      → IsLoop fops ops table
          (register_tasks fops ops table (x ∷ y ∷ z ∷ []) period)
          (registered 1000 (control_task ops table) "control")
          (registered 10 (logger_poll_task ops) "logger")
          (registered 1 (modbus_task fops ops) "modbus")
  unfolding register_tasks sched_init sched_register
  register_lem x y z period h =
      rw h
        record { tasks = refl; count = refl; control_fn = refl; logger_fn = refl; modbus_fn = refl }

  -- The program starts, whatever caused the reset and whatever the flash memory holds, with its three
  -- tasks due at once, the relay off, a valid configuration in the application, and a well-formed
  -- controller on the default thresholds.
  pub boot_lem :
      (read : SensorRead D) (x y z : Task (Mcu F D U)) (c : Mcu F D U)
      → let (s, d) = boot fops ops table read (x ∷ y ∷ z ∷ []) c in
        IsLoop fops ops table s
          (registered 1000 (control_task ops table) "control")
          (registered 10 (logger_poll_task ops) "logger")
          (registered 1 (modbus_task fops ops) "modbus")
        × IsRunningMcu read d
        × (d.world.board.relay ≡ false)
        × (storage_validate d.app.cfg ≡ true)
        × (d.app.ctrl.cfg ≡ controller_defaults)
  unfolding boot
  boot_lem read x y z c =
      let (app, w) = app_init fops c.app (some read) c.world in
      let cause = (ops.reset_cause_get (ops.platform_init c.hw)).0 in
      let defaults = extended-cfg cause w.board in
      let off =
        extended-relay (some controller_defaults) cause w.board
        ∙ init_relay fops c.app read c.world in
      (
        register_lem x y z _ (ap (λ cfg. cfg.sample_period_ms) defaults),
        record {
          ready = record {
            control = ctrl_init_extended-WellFormed (some controller_defaults) cause w.board;
            safe_off = ap (λ cfg. cfg.relay_safe_state) defaults;
            driven = λ h. absurd (ground arith);
          };
          sensor = unfold app_init in refl;
          required = unfold app_init in refl;
        },
        off,
        init_valid fops c.app read c.world,
        defaults,
      )
