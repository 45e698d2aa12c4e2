-- ===== src/App/Node/Outage.antt =====
-- A sensor that fails for good: the polls of src/app/app.c turn the relay off.
use climate_node.Prelude.{
  ℕ, suc, ◌+◌, ◌≤◌, ◌<◌, ◌≡◌, refl, ◌∙◌, sym, ap, subst, ◌⊎◌, inl, inr, arith, Bool, true, false,
  Option, none, some, List, [], ◌∷◌, ℤ, u8, leb, ◌||◌, if◌then◌else◌, Bool-cases,
}
use climate_node.Platform.{Board}
use climate_node.Core.Types.{Err, Sample}
use climate_node.Core.Dewpoint.{IsLnTable}
use climate_node.Core.Controller.{Controller, ctrl_set_relay, sample_is_valid}
use climate_node.Core.Controller.Step.{is_safe, on_invalid, ctrl_update}
use climate_node.Service.Storage.Persist.{FlashOps}
use climate_node.App.Node.{
  App, World, SensorRead, taken_sample, zero_sample, next_sample, sample_is_due, drive_relay,
  app_poll, app_task,
}
use climate_node.App.Node.Relay.{IsReady, task-IsReady}
use climate_node.App.Node.Runs.{Runs, Runs-IsReady}

-- After `k` failed samples the relay is in its safe state, or they are counted and not yet a fault.
abbrev IsFailing : ℕ → Controller → Type 0
IsFailing k c =
    (c.relay_on ≡ c.cfg.relay_safe_state)
    ⊎ ((c.sensor_error_streak ≡ k) × (k < c.cfg.fault_threshold))

failed_step :
    (table : ℕ → ℤ) (k : ℕ) (c : Controller) (s : Sample) (b : Board)
    → sample_is_valid s ≡ false
    → c.cfg.fault_threshold < 256
    → IsFailing k c
    → let c' = (ctrl_update table c s b).1 in (c'.cfg ≡ c.cfg) × IsFailing (suc k) c'
unfolding ctrl_update on_invalid ctrl_set_relay
failed_step table k c s b bad small h = elim (Bool-cases (is_safe c.state || c.power_is_dying)) [
  | inl stop ↦ rw stop (refl, inl refl)
  | inr go ↦ elim (Bool-cases (leb c.cfg.fault_threshold (u8 (c.sensor_error_streak + 1)))) [
    | inl fault ↦ rw (go, bad, fault) (refl, inl refl)
    | inr fine ↦ rw (go, bad, fine) (refl, ground (arith, h))
  ]
]

module _ {W : Type 0} where
  -- The driver's states in which the sensor has failed: no measurement gives a valid sample, and it stays
  -- so.
  abbrev pub IsBroken : SensorRead W → (W → Type 0) → Type 0
  IsBroken read Dead =
      (driver : W) (now : ℕ)
      → Dead driver
      → let (e, s, driver') = read driver zero_sample in
        (sample_is_valid (taken_sample e s now) ≡ false) × Dead driver'

  drive_relay-kept :
      (app : App W) (b : Board)
      → let (app', b') = drive_relay app b in (app'.ctrl ≡ app.ctrl) × (app'.read ≡ app.read)
  unfolding drive_relay
  drive_relay-kept app b = ground arith

module _ {F W : Type 0} (table : ℕ → ℤ) where
  -- Calls of `app_task` at the given times: how many processed a sample, and what they leave.
  unfoldable pub polls : List ℕ → App W → World F W → ℕ × App W × World F W
  polls [] app w = (0, app, w)
  polls (now ∷ nows) app w =
      let (e, processed, app', w') = app_task table app now w in
      let (n, app'', w'') = polls nows app' w' in ((if processed then n + 1 else n), app'', w'')

  -- After `k` polls of a broken sensor.
  pub record IsLost (read : SensorRead W) (Dead : W → Type 0) (limit k : ℕ) (app : App W)
      (w : World F W) : Type 0 where
    pub ready : IsReady app w
    pub dead : Dead w.driver
    pub port : app.read ≡ some read
    pub threshold : app.ctrl.cfg.fault_threshold ≡ limit
    pub follows : 0 < k → app.relay_prev ≡ app.ctrl.relay_on
    pub failing : IsFailing k app.ctrl

  task_from : App W → ℕ → World F W → Option (SensorRead W) → Err × Bool × App W × World F W
  task_from app now w none = (Err.invalid_arg, false, app, w)
  task_from app now w (some read) =
      if sample_is_due app now then app_poll table app read now w else (Err.ok, false, app, w)

  task_lem :
      (app : App W) (read : SensorRead W) (now : ℕ) (w : World F W)
      → app.read ≡ some read
      → app_task table app now w
        ≡ (if sample_is_due app now then app_poll table app read now w else (Err.ok, false, app, w))
  unfolding app_task task_from
  task_lem app read now w port = ap (task_from app now w) port

  -- What a poll does to the controller and the sensor port.
  poll_ctrl :
      (app : App W) (read : SensorRead W) (now : ℕ) (w : World F W)
      → let (e, s, driver) = read w.driver zero_sample in
        let (err, processed, app', w') = app_poll table app read now w in
        (processed ≡ true)
        × (app'.ctrl ≡ (ctrl_update table app.ctrl (taken_sample e s now) w.board).1)
        × (app'.read ≡ app.read)
        × (w'.driver ≡ driver)
  unfolding app_poll
  poll_ctrl app read now w =
      let (e, s, driver) = read w.driver zero_sample in
      let (err, c, b) = ctrl_update table app.ctrl (taken_sample e s now) w.board in
      let (ctrl, port) =
        drive_relay-kept (record app { ctrl = c; next_sample_ms = next_sample app now }) b in
      (refl, ctrl, port, refl)

  module _ (ln : IsLnTable table) (read : SensorRead W) (Dead : W → Type 0)
      (broken : IsBroken read Dead) (limit : ℕ) (small : limit < 256) where
    poll-IsLost :
        (k now : ℕ) (app : App W) (w : World F W)
        → IsLost read Dead limit k app w
        → let (e, processed, app', w') = app_task table app now w in
          ((processed ≡ false) × IsLost read Dead limit k app' w')
          ⊎ ((processed ≡ true) × IsLost read Dead limit (suc k) app' w')
    poll-IsLost k now app w h =
        let task = task_lem app read now w h.port in
        let (ready, done) = task-IsReady table ln app now w h.ready in
        elim (Bool-cases (sample_is_due app now)) [
          | inl due ↦
              let polled =
                task
                ∙ ap (λ b. if b then app_poll table app read now w else (Err.ok, false, app, w))
                    due in
              let (e, s, driver) = read w.driver zero_sample in
              let (processed, ctrl, port, moved) = poll_ctrl app read now w in
              let (bad, dead) = broken w.driver now h.dead in
              let (same, failing) =
                failed_step table k app.ctrl (taken_sample e s now) w.board bad
                  (omega (arith, h.threshold)) h.failing in
              let processed' = ap (λ r. r.1) polled ∙ processed in
              let ctrl' = ap (λ r. r.2.ctrl) polled ∙ ctrl in
              inr (
                processed',
                record {
                  ready = ready;
                  dead = subst Dead (sym (ap (λ r. r.3.driver) polled ∙ moved)) dead;
                  port = ap (λ r. r.2.read) polled ∙ port ∙ h.port;
                  threshold =
                      ap (λ c. c.cfg.fault_threshold) ctrl'
                      ∙ ap (λ g. g.fault_threshold) same
                      ∙ h.threshold;
                  follows = λ p. (done processed').0;
                  failing = subst (IsFailing (suc k)) (sym ctrl') failing;
                },
              )
          | inr idle ↦
              let same =
                task
                ∙ ap (λ b. if b then app_poll table app read now w else (Err.ok, false, app, w))
                    idle in
              inl (ap (λ r. r.1) same, subst (λ r. IsLost read Dead limit k r.2 r.3) (sym same) h)
        ]

    polls-IsLost :
        (nows : List ℕ) (k : ℕ) (app : App W) (w : World F W)
        → IsLost read Dead limit k app w
        → let (n, app', w') = polls nows app w in IsLost read Dead limit (k + n) app' w'
    unfolding polls
    polls-IsLost [] k app w h = subst (λ m. IsLost read Dead limit m app w) (omega arith) h
    polls-IsLost (now ∷ nows) k app w h =
        let (e, processed, app', w') = app_task table app now w in
        elim (poll-IsLost k now app w h) [
          | inl (idle, same) ↦ rw idle (polls-IsLost nows k app' w' same)
          | inr (ran, lost) ↦ rw ran (
              subst (λ m. IsLost read Dead limit m (polls nows app' w').1 (polls nows app' w').2)
                (omega arith) (polls-IsLost nows (suc k) app' w' lost))
        ]

  -- With a table of logarithms as `IsLnTable` has it: however the program has been started, by `app_init`
  -- alone or with the reset's cause after it, and has run, if the sensor fails for good when no invalid
  -- sample has been counted since the last valid one, the relay output is off once as many polls as the
  -- fault threshold (a byte) have processed a sample, and however many more follow.
  pub outage_stops_relay :
      {ops : FlashOps F} {app : App W} {w : World F W} (read : SensorRead W) (Dead : W → Type 0)
      (nows : List ℕ)
      → IsLnTable table
      → Runs ops table app w
      → app.read ≡ some read
      → IsBroken read Dead
      → Dead w.driver
      → app.ctrl.sensor_error_streak ≡ 0
      → app.ctrl.cfg.fault_threshold < 256
      → app.ctrl.cfg.fault_threshold ≤ (polls nows app w).0
      → (polls nows app w).2.board.relay ≡ false
  outage_stops_relay {ops} {app} {w} read Dead nows ln runs port broken dead fresh small enough =
      let ready = Runs-IsReady table ln runs in
      let (seen, v) = ready.control in
      let some_needed = v.sane.faults in
      let (n, app', w') = polls nows app w in
      let lost =
        polls-IsLost ln read Dead broken app.ctrl.cfg.fault_threshold small nows 0 app w (record {
          ready = ready;
          dead = dead;
          port = port;
          threshold = refl;
          follows = λ h. absurd (omega arith);
          failing = inr (fresh, some_needed);
        }) in
      let follows = lost.follows (omega arith) in
      let threshold = lost.threshold in
      elim (Bool-cases w'.board.relay) [
        | inr off ↦ off
        | inl on ↦
            let turned_on : app'.ctrl.relay_on ≡ true = sym follows ∙ lost.ready.driven on in
            elim lost.failing [
              | inl quiet ↦ on ∙ sym turned_on ∙ quiet ∙ lost.ready.safe_off
              | inr (counted, below) ↦ absurd (omega arith)
            ]
      ]
