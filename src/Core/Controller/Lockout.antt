-- ===== src/Core/Controller/Lockout.antt =====
-- SAFE is kept by every sample, and a third watchdog crash without a stable cycle leads there.
use climate_node.Prelude.{
  ℕ, zero, suc, ◌+◌, ◌<◌, ◌≡◌, refl, ◌≢◌, ◌∙◌, ap, Option, List, [], ◌∷◌, arith, ℤ, ltb,
  if◌then◌else◌,
}
use climate_node.Platform.{Board}
use climate_node.Core.Types.{Err, ResetCause, Sample}
use climate_node.Core.Controller.{
  CtrlState, ControllerConfig, Controller, ctrl_set_relay, ctrl_init, ctrl_init_extended,
  ctrl_force_emergency_shutdown,
}
use climate_node.Core.Controller.Step.{
  on_invalid, on_math_fault, decide_relay, clear_crashes, after_dewpoint, after_filter, measure,
  on_valid, ctrl_update,
}
use climate_node.Core.Controller.Faults.{ctrl_run}

module _ (table : ℕ → ℤ) where
  safe_step :
      (c : Controller) (s : Sample) (b : Board)
      → c.state ≡ CtrlState.safe
      → ctrl_update table c s b ≡ (Err.hw, record c { relay_on = c.cfg.relay_safe_state }, b)
  unfolding ctrl_update ctrl_set_relay
  safe_step c s b h = rw h

  -- In SAFE every run of samples leaves SAFE, the configuration and the board as they are.
  safe_run :
      (ss : List Sample) (c : Controller) (b : Board)
      → c.state ≡ CtrlState.safe
      → c.relay_on ≡ c.cfg.relay_safe_state
      → let (c', b') = ctrl_run table c ss b in
        (c'.state ≡ CtrlState.safe) × (c'.relay_on ≡ c.cfg.relay_safe_state) × (b' ≡ b)
  unfolding ctrl_run
  safe_run [] c b h r = (h, r, refl)
  safe_run (s ∷ ss) c b h r =
      rw (safe_step c s b h, ctrl_run)
        (safe_run ss (record c { relay_on = c.cfg.relay_safe_state }) b h refl)

  -- After the brown-out interrupt no sample brings the automaton out of SAFE: the relay stays in its
  -- safe state, in the controller and on the board.
  pub shutdown_latches :
      (c : Controller) (ss : List Sample) (b : Board)
      → let (d, on) = ctrl_force_emergency_shutdown c b in
        let (c', b') = ctrl_run table d ss on in
        (c'.state ≡ CtrlState.safe)
        × (c'.relay_on ≡ c.cfg.relay_safe_state)
        × (b'.relay ≡ c.cfg.relay_safe_state)
        × (b'.backup ≡ b.backup)
  unfolding ctrl_force_emergency_shutdown
  shutdown_latches c ss b =
      let (d, on) = ctrl_force_emergency_shutdown c b in
      let t = safe_run ss d on refl refl in
      (t.0, t.1, ap (λ (x : Board). x.relay) t.2, ap (λ (x : Board). x.backup) t.2)

  -- Only a stable cycle writes the backup byte.
  board_kept :
      (c : Controller) (s : Sample) (b : Board)
      → (ctrl_update table c s b).0 ≢ Err.ok
      → (ctrl_update table c s b).2 ≡ b
  unfolding ctrl_update on_invalid on_valid measure after_filter after_dewpoint on_math_fault
  board_kept c s b h = ground arith

  -- With no crash on record none appears.
  clean_step :
      (c : Controller) (s : Sample) (b : Board)
      → c.watchdog_crash_counter ≡ 0
      → let (e, c', b') = ctrl_update table c s b in (c'.watchdog_crash_counter ≡ 0) × (b' ≡ b)
  unfolding ctrl_update on_invalid on_valid measure after_filter after_dewpoint on_math_fault
      decide_relay clear_crashes
  clean_step c s b h = ground arith

  clean_run :
      (ss : List Sample) (c : Controller) (b : Board)
      → c.watchdog_crash_counter ≡ 0
      → (ctrl_run table c ss b).1 ≡ b
  unfolding ctrl_run
  clean_run [] c b h = refl
  clean_run (s ∷ ss) c b h =
      let p = clean_step c s b h in
      clean_run ss (ctrl_update table c s b).1 (ctrl_update table c s b).2 p.0 ∙ p.1

  -- No call of the run returns `ERR_OK`.
  abbrev pub NeverStable : Controller → List Sample → Board → Type 0
  NeverStable c [] b = Unit {0}
  NeverStable c (s ∷ ss) b =
      ((ctrl_update table c s b).0 ≢ Err.ok)
      × NeverStable (ctrl_update table c s b).1 ss (ctrl_update table c s b).2

  unstable_run :
      (ss : List Sample) (c : Controller) (b : Board)
      → NeverStable c ss b
      → (ctrl_run table c ss b).1 ≡ b
  unfolding ctrl_run
  unstable_run [] c b h = refl
  unstable_run (s ∷ ss) c b h =
      unstable_run ss (ctrl_update table c s b).1 (ctrl_update table c s b).2 h.1
      ∙ board_kept c s b h.0

  module _ (given : Option ControllerConfig) where
    abbrev pub boot : ResetCause → Board → Controller × Board
    boot cause b = ctrl_init_extended given cause b

    -- A board that has seen `n` watchdog crashes in a row since it was powered on: any samples after
    -- power-on, then after each watchdog reset samples that never make a stable cycle.
    pub data Crashed : ℕ → Board → Type 0 where
      powered :
          (b : Board) (ss : List Sample)
          → Crashed zero
              (ctrl_run table (boot ResetCause.power_on b).0 ss (boot ResetCause.power_on b).1).1
      hung :
          {n : ℕ} {b : Board} (ss : List Sample)
          → Crashed n b
          → NeverStable (boot ResetCause.watchdog b).0 ss (boot ResetCause.watchdog b).1
          → Crashed
              (suc n)
              (ctrl_run table (boot ResetCause.watchdog b).0 ss (boot ResetCause.watchdog b).1).1

    power_on_clears :
        (b : Board)
        → ((boot ResetCause.power_on b).0.watchdog_crash_counter ≡ 0)
          × ((boot ResetCause.power_on b).1.backup ≡ 0)
    unfolding ctrl_init_extended
    power_on_clears b = (refl, refl)

    watchdog_counts :
        (b : Board)
        → b.backup < 255
        → let (c, b') = boot ResetCause.watchdog b in
          (b'.backup ≡ b.backup + 1)
          × (c.state ≡ (if ltb b.backup 2 then CtrlState.warmup else CtrlState.safe))
          × (c.relay_on ≡ c.cfg.relay_safe_state)
    unfolding ctrl_init_extended ctrl_init
    watchdog_counts b h = ground arith

    Crashed-backup : {n : ℕ} {b : Board} → Crashed n b → n < 255 → b.backup ≡ n
    Crashed-backup (powered b ss) h =
        rw
          (clean_run ss (boot ResetCause.power_on b).0 (boot ResetCause.power_on b).1
            (power_on_clears b).0)
          (power_on_clears b).1
    Crashed-backup (hung {n} {b} ss w never) h =
        let e = Crashed-backup w (omega arith) in
        rw (unstable_run ss _ _ never) (omega (arith, watchdog_counts b (omega arith)))

    -- After fewer than 255 watchdog crashes in a row with no stable cycle, the next watchdog boot
    -- counts one more in the backup byte, enters SAFE exactly when two crashes came before it, and
    -- has the relay in its safe state.
    pub crash_lockout :
        {n : ℕ} {b : Board}
        → Crashed n b
        → n < 255
        → let (c, b') = boot ResetCause.watchdog b in
          (b'.backup ≡ n + 1)
          × (c.state ≡ (if ltb n 2 then CtrlState.warmup else CtrlState.safe))
          × (c.relay_on ≡ c.cfg.relay_safe_state)
    crash_lockout {n} {b} w h =
        let e = Crashed-backup w h in rw (← e) (watchdog_counts b (omega arith))
