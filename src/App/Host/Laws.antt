-- ===== src/App/Host/Laws.antt =====
-- The relay in the host's program, from its start through every tick.
use climate_node.Prelude.{
  ℕ, zero, suc, ℤ, ◌≡◌, ◌⊎◌, refl, ◌∙◌, sym, ap, inl, inr, arith, true, false, some, List, [], ◌∷◌,
  Bool-cases, Option-cases,
}
use climate_node.Core.Dewpoint.{IsLnTable}
use climate_node.Core.Controller.{CtrlState}
use climate_node.Driver.Mock.{mock_sensor_read}
use climate_node.Service.Logger.{LogLevel, logger_level_enabled}
use climate_node.Service.Storage.Persist.{host_flash}
use climate_node.App.Scheduler.{Task, Scheduler, sched_init, sched_register}
use climate_node.App.Scheduler.Keep.{registered, IsKeeping, pass_keep}
use climate_node.App.Node.{App, World, SensorRead, app_task, sample_is_due}
use climate_node.App.Node.Relay.{IsReady, init-IsReady, init_relay, task-IsReady, poll-processes}
use climate_node.App.Host.{
  Host, control_task, logger_periodic_task, diagnostics_task, platform_millis, platform_host_tick,
}
use climate_node.App.Host.Loop.{erased, register_host_tasks, start, tick, ticks}

-- The application is ready, and the relay output is on in RUN alone.
record IsQuiet {F D : Type 0} (app : App D) (w : World F D) : Type 0 where
  ready : IsReady app w
  run : w.board.relay ≡ true → app.ctrl.state ≡ CtrlState.run

module _ {F D : Type 0} where
  task-due :
      (table : ℕ → ℤ) (app : App D) (read : SensorRead D) (now : ℕ) (w : World F D)
      → app.read ≡ some read
      → sample_is_due app now ≡ true
      → (app_task table app now w).1 ≡ true
  unfolding app_task
  task-due table app read now w e due =
      rw (e, due) (poll-processes table (record app { read = some read }) read now w)

  -- A poll that processes no sample changes nothing.
  task-idle :
      (table : ℕ → ℤ) (app : App D) (now : ℕ) (w : World F D)
      → (app_task table app now w).1 ≡ false
      → ((app_task table app now w).2 ≡ app) × ((app_task table app now w).3 ≡ w)
  unfolding app_task
  task-idle table app now w h = elim (Option-cases app.read) [
    | inl e ↦ rw e (refl, refl)
    | inr (read, e) ↦ elim (Bool-cases (sample_is_due app now)) [
      | inl due ↦
          let processed = task-due table app read now w e due in
          absurd (ground (arith, h, processed))
      | inr idle ↦ rw (e, idle) (refl, refl)
    ]
  ]

  task-IsQuiet :
      (table : ℕ → ℤ) (ln : IsLnTable table) (app : App D) (now : ℕ) (w : World F D)
      → IsQuiet app w
      → let (e, processed, app', w') = app_task table app now w in IsQuiet app' w'
  task-IsQuiet table ln app now w q =
      let (ready, done) = task-IsReady table ln app now w q.ready in
      elim (Bool-cases (app_task table app now w).1) [
        | inl processed ↦ record { ready = ready; run = (done processed).1 }
        | inr idle ↦
            let (same, still) = task-idle table app now w idle in
            record {
              ready = ready;
              run = λ on.
                  ap (λ a. a.ctrl.state) same ∙ q.run (ap (λ v. v.board.relay) (sym still) ∙ on);
            }
      ]

abbrev IsQuietHost : Host → Type 0
IsQuietHost c = IsQuiet c.app c.world

module _ (table : ℕ → ℤ) (ln : IsLnTable table) where
  control-IsQuiet : (c : Host) → IsQuietHost c → IsQuietHost (control_task table c)
  unfolding control_task platform_millis
  control-IsQuiet c q =
      let next = task-IsQuiet table ln c.app c.now c.world q in
      elim (Bool-cases (app_task table c.app c.now c.world).1) [
        | inl e ↦ rw e next
        | inr e ↦ rw e next
      ]

  logger-IsQuiet : (c : Host) → IsQuietHost c → IsQuietHost (logger_periodic_task c)
  unfolding logger_periodic_task
  logger-IsQuiet c q = q

  diagnostics-IsQuiet : (c : Host) → IsQuietHost c → IsQuietHost (diagnostics_task c)
  unfolding diagnostics_task logger_periodic_task
  diagnostics-IsQuiet c q = elim (Bool-cases (logger_level_enabled LogLevel.info c.log)) [
    | inl e ↦ rw e q
    | inr e ↦ rw e q
  ]

  start-IsQuiet : (c : Host) → IsQuietHost (start c)
  unfolding start
  start-IsQuiet c = record {
    ready = init-IsReady host_flash c.app mock_sensor_read (erased c);
    run =
        λ on. absurd (ground (arith, on, init_relay host_flash c.app mock_sensor_read (erased c)));
  }

  tasks-IsKeeping :
      (x y z v : Task Host)
      → (mine : List (Task Host)) × (rest : List (Task Host)) × IsKeeping IsQuietHost
          (register_host_tasks table (x ∷ y ∷ z ∷ v ∷ []))
          mine
          rest
  unfolding register_host_tasks sched_init sched_register
  tasks-IsKeeping x y z v = (
    registered 50 (control_task table) "control"
        ∷ registered 10 logger_periodic_task "logger"
        ∷ registered 1000 diagnostics_task "diag"
        ∷ [],
    v ∷ [],
    record {
      tasks = refl;
      count = refl;
      keep = (control-IsQuiet, (logger-IsQuiet, (diagnostics-IsQuiet, tt)));
    },
  )

  ticks-IsQuiet :
      (n : ℕ) (s : Scheduler Host) (mine rest : List (Task Host)) (c : Host)
      → IsKeeping IsQuietHost s mine rest
      → IsQuietHost c
      → IsQuietHost (ticks n s c)
  unfolding ticks tick platform_host_tick platform_millis
  ticks-IsQuiet zero s mine rest c is q = q
  ticks-IsQuiet (suc n) s mine rest c is q =
      let t = platform_host_tick 10 c in
      let (is', q') = pass_keep IsQuietHost s mine rest t.now t is q in
      ticks-IsQuiet n _ _ rest _ is' q'

  -- After any number of ticks of the host's program the relay output is off, or the automaton is in RUN.
  pub host_relay :
      (x y z v : Task Host) (c : Host) (n : ℕ)
      → let after = ticks n (register_host_tasks table (x ∷ y ∷ z ∷ v ∷ [])) (start c) in
        (after.world.board.relay ≡ false) ⊎ (after.app.ctrl.state ≡ CtrlState.run)
  host_relay x y z v c n =
      let (mine, rest, is) = tasks-IsKeeping x y z v in
      let after = ticks n (register_host_tasks table (x ∷ y ∷ z ∷ v ∷ [])) (start c) in
      let quiet = ticks-IsQuiet n _ mine rest _ is (start-IsQuiet c) in
      elim (Bool-cases after.world.board.relay) [ inl on ↦ inr (quiet.run on) | inr off ↦ inl off ]
