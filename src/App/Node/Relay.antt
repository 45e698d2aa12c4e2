-- ===== src/App/Node/Relay.antt =====
-- The relay output of the running program: what the application object drives, through start-up,
-- polls, new configurations and brown-outs.
use climate_node.Prelude.{
  Option-cases, sym, ap, ◌⊎◌, ◌≢◌, ℕ, ℤ, ◌≡◌, refl, ◌∙◌, arith, true, false, Option, none, some,
  inl, inr, Bool-cases,
}
use climate_node.Platform.{Board, platform_relay_set}
use climate_node.Core.Dewpoint.{IsLnTable}
use climate_node.Core.Controller.{
  CtrlState, Controller, ctrl_init, ctrl_relay_on, ctrl_force_emergency_shutdown, sane_margins,
  sane_config,
}
use climate_node.Core.Controller.Step.{ctrl_update}
use climate_node.Core.Controller.Safety.{
  WellFormed, IsFailSafe, ctrl_init-WellFormed, ctrl_update-WellFormed,
}
use climate_node.Core.Controller.Boot.{shutdown-WellFormed}
use climate_node.Core.Controller.Frame.{ctrl_update-IsFrame}
use climate_node.Service.Storage.{DeviceConfig, storage_validate}
use climate_node.Service.Storage.Persist.{FlashOps, is_ok, storage_save}
use climate_node.App.Node.{
  App, World, SensorRead, control_config, taken_sample, zero_sample, next_sample, sample_is_due,
  drive_relay, app_init, app_apply_config, app_update_config, app_poll, app_task,
}

-- The controller is well-formed, its safe relay state is off, and the relay is on only if the
-- object has turned it on.
pub record IsReady {F W : Type 0} (app : App W) (w : World F W) : Type 0 where
  pub control : WellFormed app.ctrl
  pub safe_off : app.ctrl.cfg.relay_safe_state ≡ false
  pub driven : w.board.relay ≡ true → app.relay_prev ≡ true

init_safe_off :
    (cfg : DeviceConfig) → (ctrl_init (some (control_config cfg))).cfg.relay_safe_state ≡ false
unfolding ctrl_init sane_config sane_margins
init_safe_off cfg = ground arith

-- The program starts with the relay off.
pub init_relay :
    {F D : Type 0} (fops : FlashOps F) (app : App D) (read : SensorRead D) (w : World F D)
    → (app_init fops app (some read) w).1.board.relay ≡ false
unfolding app_init platform_relay_set ctrl_init
init_relay fops app read w = init_safe_off (app_init fops app (some read) w).0.cfg

drive_relay_lem :
    {W : Type 0} (app : App W) (b : Board)
    → (b.relay ≡ true → app.relay_prev ≡ true)
    → let (app', b') = drive_relay app b in
      (app'.ctrl ≡ app.ctrl)
      × (app'.relay_prev ≡ app.ctrl.relay_on)
      × (b'.relay ≡ true → app.ctrl.relay_on ≡ true)
unfolding drive_relay ctrl_relay_on platform_relay_set
drive_relay_lem app b h = ground arith

state_cases : (s : CtrlState) → (s ≡ CtrlState.run) ⊎ (s ≢ CtrlState.run)
state_cases CtrlState.run = inl refl
state_cases CtrlState.init = inr (ground arith)
state_cases CtrlState.warmup = inr (ground arith)
state_cases CtrlState.sensor_fault = inr (ground arith)
state_cases CtrlState.math_fault = inr (ground arith)
state_cases CtrlState.safe = inr (ground arith)

on_in_run :
    (c : Controller)
    → IsFailSafe c
    → c.cfg.relay_safe_state ≡ false
    → c.relay_on ≡ true
    → c.state ≡ CtrlState.run
on_in_run c v off on = elim (state_cases c.state) [
  | inl e ↦ e
  | inr e ↦ let quiet = v.relay_safe e in absurd (ground arith)
]

module _ {F W : Type 0} where
  pub init-IsReady :
      (ops : FlashOps F) (app : App W) (read : SensorRead W) (w : World F W)
      → let (app', w') = app_init ops app (some read) w in IsReady app' w'
  unfolding app_init platform_relay_set
  init-IsReady ops app read w = record {
    control = ctrl_init-WellFormed _;
    safe_off = init_safe_off (app_init ops app (some read) w).0.cfg;
    driven = λ h. h;
  }

  apply-IsReady :
      (app : App W) (w : World F W)
      → (w.board.relay ≡ true → app.relay_prev ≡ true)
      → IsReady (app_apply_config app) w
  unfolding app_apply_config
  apply-IsReady app w h = record {
    control = ctrl_init-WellFormed _;
    safe_off = init_safe_off app.cfg;
    driven = h;
  }

  pub update-IsReady :
      (ops : FlashOps F) (app : App W) (new_cfg : DeviceConfig) (w : World F W)
      → IsReady app w
      → let (e, app', w') = app_update_config ops app new_cfg w in IsReady app' w'
  unfolding app_update_config
  update-IsReady ops app new_cfg w r = elim (Bool-cases (storage_validate new_cfg)) [
    | inr e ↦ rw e r
    | inl e ↦
        let (err, flash) = storage_save ops new_cfg w.flash in
        elim (Bool-cases (is_ok err)) [
          | inr k ↦
              rw (e, k) record { control = r.control; safe_off = r.safe_off; driven = r.driven }
          | inl k ↦
              rw (e, k)
                (apply-IsReady (record app { cfg = new_cfg }) (record w { flash = flash }) r.driven)
        ]
  ]

  -- The brown-out interrupt acts on the application's controller.
  unfoldable pub brown_out : App W → World F W → App W × World F W
  brown_out app w =
      let (c, b) = ctrl_force_emergency_shutdown app.ctrl w.board in
      (record app { ctrl = c }, record w { board = b })

  pub brown_out-IsReady :
      (app : App W) (w : World F W)
      → IsReady app w
      → IsReady (brown_out app w).0 (brown_out app w).1
  unfolding brown_out ctrl_force_emergency_shutdown platform_relay_set
  brown_out-IsReady app w r = record {
    control = shutdown-WellFormed app.ctrl w.board r.control;
    safe_off = r.safe_off;
    driven = λ h. absurd (ground (arith, r.safe_off));
  }

  module _ (table : ℕ → ℤ) (ln : IsLnTable table) where
    -- A poll drives the relay to what the controller decided, and it is on in RUN alone.
    poll_lem :
        (app : App W) (read : SensorRead W) (now : ℕ) (w : World F W)
        → IsReady app w
        → let (err, processed, app', w') = app_poll table app read now w in
          IsReady app' w'
          × (app'.relay_prev ≡ app'.ctrl.relay_on)
          × (w'.board.relay ≡ true → app'.ctrl.state ≡ CtrlState.run)
    unfolding app_poll
    poll_lem app read now w r =
        let (e, s, driver) = read w.driver zero_sample in
        let taken = taken_sample e s now in
        let (err, c, b) = ctrl_update table app.ctrl taken w.board in
        let frame = ctrl_update-IsFrame table app.ctrl taken w.board in
        let safe_off = ap (λ cfg. cfg.relay_safe_state) frame.0 ∙ r.safe_off in
        let (seen, v) = ctrl_update-WellFormed table ln app.ctrl taken w.board r.control in
        let (same, prev, on) =
          drive_relay_lem (record app { ctrl = c; next_sample_ms = next_sample app now }) b
            (λ h. r.driven (sym frame.1 ∙ h)) in
        (
          record {
            control = rw same (seen, v);
            safe_off = rw same safe_off;
            driven = λ h. prev ∙ on h;
          },
          rw same prev,
          λ h. rw same (on_in_run c v.flags safe_off (on h)),
        )

  -- A poll that is due processes a sample.
  pub poll-processes :
      (table : ℕ → ℤ) (app : App W) (read : SensorRead W) (now : ℕ) (w : World F W)
      → (app_poll table app read now w).1 ≡ true
  unfolding app_poll
  poll-processes table app read now w = refl

  -- The sensor port is free.
  rebuilt :
      (port : Option (SensorRead W)) (app : App W) (w : World F W)
      → IsReady app w
      → IsReady (record app { read = port }) w
  rebuilt port app w r = record { control = r.control; safe_off = r.safe_off; driven = r.driven }

  module _ (table : ℕ → ℤ) (ln : IsLnTable table) where
    pub task-IsReady :
        (app : App W) (now : ℕ) (w : World F W)
        → IsReady app w
        → let (err, processed, app', w') = app_task table app now w in
          IsReady app' w'
          × (processed ≡ true
              → (app'.relay_prev ≡ app'.ctrl.relay_on)
                × (w'.board.relay ≡ true → app'.ctrl.state ≡ CtrlState.run))
    unfolding app_task
    task-IsReady app now w r = elim (Option-cases app.read) [
      | inl e ↦ rw e (rebuilt none app w r, λ h. absurd (ground arith))
      | inr (read, e) ↦ elim (Bool-cases (sample_is_due app now)) [
        | inl due ↦
            let (ready, same, run) =
              poll_lem table ln (record app { read = some read }) read now w
                (rebuilt (some read) app w r) in
            rw (e, due) (ready, λ h. (same, run))
        | inr due ↦ rw (e, due) (rebuilt (some read) app w r, λ h. absurd (ground arith))
      ]
    ]
