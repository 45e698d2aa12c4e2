-- ===== src/App/Node/Runs.antt =====
-- All that the programs do with the application object of src/app/app.c, and its relay output through it.
use climate_node.Prelude.{sym, ap, ℕ, ℤ, ◌≡◌, ◌∙◌, true, some}
use climate_node.Core.Types.{ResetCause}
use climate_node.Core.Dewpoint.{IsLnTable}
use climate_node.Core.Controller.{CtrlState, controller_defaults, ctrl_init_extended}
use climate_node.Service.Storage.{DeviceConfig}
use climate_node.Service.Storage.Persist.{FlashOps}
use climate_node.App.Node.{
  App, World, SensorRead, app_init, app_update_config, app_task, app_mark_ticket, app_clear_tickets,
}
use climate_node.Core.Controller.Boot.{extended-cfg, extended-relay, ctrl_init_extended-WellFormed}
use climate_node.App.Node.Relay.{
  IsReady, init-IsReady, update-IsReady, brown_out, brown_out-IsReady, task-IsReady,
}

module _ {F W : Type 0} where
  -- The start of the microcontroller's program: `app_init`, and then a controller that knows the reset's
  -- cause.
  unfoldable pub extended_start :
      FlashOps F → App W → SensorRead W → ResetCause → World F W → App W × World F W
  extended_start ops app read cause w =
      let (app', w') = app_init ops app (some read) w in
      let (c, b) = ctrl_init_extended (some controller_defaults) cause w'.board in
      (record app' { ctrl = c }, record w' { board = b })

  pub extended_start-IsReady :
      (ops : FlashOps F) (app : App W) (read : SensorRead W) (cause : ResetCause) (w : World F W)
      → let (app', w') = extended_start ops app read cause w in IsReady app' w'
  unfolding extended_start
  extended_start-IsReady ops app read cause w =
      let ready = init-IsReady ops app read w in
      let b = (app_init ops app (some read) w).1.board in
      record {
        control = ctrl_init_extended-WellFormed (some controller_defaults) cause b;
        safe_off = ap (λ cfg. cfg.relay_safe_state) (extended-cfg cause b);
        driven = λ h. ready.driven (sym (extended-relay (some controller_defaults) cause b) ∙ h);
      }

  -- The runs of the program: started once on a sensor, by `app_init` alone as on the host or with the
  -- reset's cause as on the microcontroller, then polled, given configurations and tickets, and browned
  -- out in any order.
  pub data Runs (ops : FlashOps F) (table : ℕ → ℤ) : App W → World F W → Type 0 where
    started :
        (app : App W) (read : SensorRead W) (w : World F W)
        → Runs ops table (app_init ops app (some read) w).0 (app_init ops app (some read) w).1
    started_extended :
        (app : App W) (read : SensorRead W) (cause : ResetCause) (w : World F W)
        → Runs ops table
            (extended_start ops app read cause w).0
            (extended_start ops app read cause w).1
    polled :
        {app : App W} {w : World F W} (now : ℕ)
        → Runs ops table app w
        → Runs ops table (app_task table app now w).2 (app_task table app now w).3
    configured :
        {app : App W} {w : World F W} (new_cfg : DeviceConfig)
        → Runs ops table app w
        → Runs ops table
            (app_update_config ops app new_cfg w).1
            (app_update_config ops app new_cfg w).2
    ticketed :
        {app : App W} {w : World F W} (ticket_id : ℕ)
        → Runs ops table app w
        → Runs ops table (app_mark_ticket app ticket_id) w
    tickets_cleared :
        {app : App W} {w : World F W}
        → Runs ops table app w
        → Runs ops table (app_clear_tickets app) w
    browned_out :
        {app : App W} {w : World F W}
        → Runs ops table app w
        → Runs ops table (brown_out app w).0 (brown_out app w).1

  ticket-IsReady :
      (app : App W) (w : World F W) (ticket_id : ℕ)
      → IsReady app w
      → IsReady (app_mark_ticket app ticket_id) w
  unfolding app_mark_ticket
  ticket-IsReady app w ticket_id r = record {
    control = r.control;
    safe_off = r.safe_off;
    driven = r.driven;
  }

  cleared-IsReady :
      (app : App W) (w : World F W) → IsReady app w → IsReady (app_clear_tickets app) w
  unfolding app_clear_tickets
  cleared-IsReady app w r = record { control = r.control; safe_off = r.safe_off; driven = r.driven }

  module _ (table : ℕ → ℤ) (ln : IsLnTable table) where
    pub Runs-IsReady :
        {ops : FlashOps F} {app : App W} {w : World F W} → Runs ops table app w → IsReady app w
    Runs-IsReady {ops} (started app read w) = init-IsReady ops app read w
    Runs-IsReady {ops} (started_extended app read cause w) =
        extended_start-IsReady ops app read cause w
    Runs-IsReady (ticketed {app} {w} ticket_id h) = ticket-IsReady app w ticket_id (Runs-IsReady h)
    Runs-IsReady (tickets_cleared {app} {w} h) = cleared-IsReady app w (Runs-IsReady h)
    Runs-IsReady (polled {app} {w} now h) = (task-IsReady table ln app now w (Runs-IsReady h)).0
    Runs-IsReady {ops} (configured {app} {w} new_cfg h) =
        update-IsReady ops app new_cfg w (Runs-IsReady h)
    Runs-IsReady (browned_out {app} {w} h) = brown_out-IsReady app w (Runs-IsReady h)

    -- With a table of logarithms as `IsLnTable` has it, on any flash memory and sensor: however the program
    -- has been started, by `app_init` alone or with the reset's cause after it, and has run, after a poll
    -- that processed a sample the relay output is on only if the automaton is in RUN and has turned it on.
    pub relay_only_in_run :
        {ops : FlashOps F} {app : App W} {w : World F W} (now : ℕ)
        → Runs ops table app w
        → (app_task table app now w).1 ≡ true
        → (app_task table app now w).3.board.relay ≡ true
        → let ctrl = (app_task table app now w).2.ctrl in
          (ctrl.state ≡ CtrlState.run) × (ctrl.relay_on ≡ true)
    relay_only_in_run {ops} {app} {w} now h processed on =
        let (ready, done) = task-IsReady table ln app now w (Runs-IsReady h) in
        let (prev, run) = done processed in (run on, sym prev ∙ ready.driven on)
