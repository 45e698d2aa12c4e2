-- ===== src/Core/Controller/Faults.antt =====
-- Debouncing: how many invalid samples make a fault, and how many valid ones end it.
use climate_node.Prelude.{
  ℕ, ◌+◌, ◌≤◌, ◌<◌, ◌≡◌, refl, ◌≢◌, ◌∙◌, inl, inr, true, false, List, [], ◌∷◌, arith, ℤ, u8, ltb,
  leb, ◌==◌, if◌then◌else◌, Bool-cases, length,
}
use climate_node.Platform.{Board}
use climate_node.Core.Types.{Err, Sample}
use climate_node.Core.Filter.{ma_update}
use climate_node.Core.Filter.Window.{Holds, slide}
use climate_node.Core.Dewpoint.{IsLnTable}
use climate_node.Core.Controller.{CtrlState, Controller, sample_is_valid}
use climate_node.Core.Controller.Measure.{taken_lem, dewed, taken, measure-warmup, measure-run}
use climate_node.Core.Controller.Step.{on_invalid, measure, on_valid, ctrl_update}
use climate_node.Core.Controller.Safety.{IsValid, sample_range}
use climate_node.Core.Controller.Control.{
  counted, after_dewpoint_status, after_dewpoint_runs, measure_any_streak,
}

abbrev pub AllInvalid : List Sample → Type 0
AllInvalid [] = Unit {0}
AllInvalid (s ∷ ss) = (sample_is_valid s ≡ false) × AllInvalid ss

abbrev pub AllValid : List Sample → Type 0
AllValid [] = Unit {0}
AllValid (s ∷ ss) = (sample_is_valid s ≡ true) × AllValid ss

-- `ctrl_update` takes samples: neither in SAFE nor on dying power.
abbrev pub IsAwake : Controller → Type 0
IsAwake c = (c.state ≢ CtrlState.safe) × (c.power_is_dying ≡ false)

module _ (table : ℕ → ℤ) where
  -- A run of samples.
  unfoldable pub ctrl_run : Controller → List Sample → Board → Controller × Board
  ctrl_run c [] b = (c, b)
  ctrl_run c (s ∷ ss) b = let (e, c', b') = ctrl_update table c s b in ctrl_run c' ss b'

  -- One invalid sample.
  invalid_step :
      (c : Controller) (s : Sample) (b : Board)
      → IsAwake c
      → sample_is_valid s ≡ false
      → let c' = (ctrl_update table c s b).1 in
        let n = u8 (c.sensor_error_streak + 1) in
        (c'.cfg ≡ c.cfg)
        × (c'.power_is_dying ≡ c.power_is_dying)
        × (c'.sensor_error_streak ≡ n)
        × (c'.state ≡ (if leb c.cfg.fault_threshold n then CtrlState.sensor_fault else c.state))
        × (c'.relay_on
            ≡ (if leb c.cfg.fault_threshold n then c.cfg.relay_safe_state else c.relay_on))
  unfolding ctrl_update on_invalid
  invalid_step c s b a bad = ground arith

  debounce :
      (ss : List Sample) (c : Controller) (b : Board)
      → IsAwake c
      → AllInvalid ss
      → c.sensor_error_streak + length ss < 256
      → (c.cfg.fault_threshold ≤ c.sensor_error_streak
          → (c.state ≡ CtrlState.sensor_fault) × (c.relay_on ≡ c.cfg.relay_safe_state))
      → let c' = (ctrl_run c ss b).0 in
        let n = c.sensor_error_streak + length ss in
        (c'.state ≡ (if leb c.cfg.fault_threshold n then CtrlState.sensor_fault else c.state))
        × (c'.relay_on
            ≡ (if leb c.cfg.fault_threshold n then c.cfg.relay_safe_state else c.relay_on))
        × (c'.sensor_error_streak ≡ n)
  unfolding ctrl_run
  debounce [] c b a bad small late = ground (arith, late)
  debounce (s ∷ ss) c b a bad small late =
      let (e, c', b') = ctrl_update table c s b in
      let p = invalid_step c s b a bad.0 in
      let q = debounce ss c' b' (ground arith, ground arith) bad.1 (ground arith) (ground arith) in
      ground arith

  -- From a state outside SAFE, with no error on the streak, a run of fewer than 256 invalid samples
  -- leaves state and relay alone while it is shorter than the fault threshold, and from there on
  -- means SENSOR_FAULT with the relay in its safe state.
  pub fault_debounce :
      (c : Controller) (ss : List Sample) (b : Board)
      → IsAwake c
      → c.sensor_error_streak ≡ 0
      → 0 < c.cfg.fault_threshold
      → AllInvalid ss
      → length ss < 256
      → let c' = (ctrl_run c ss b).0 in
        (c'.state
          ≡ (if ltb (length ss) c.cfg.fault_threshold then c.state else CtrlState.sensor_fault))
        × (c'.relay_on ≡ (
            if ltb (length ss) c.cfg.fault_threshold then c.relay_on else c.cfg.relay_safe_state))
  fault_debounce c ss b a z p bad small =
      let q = debounce ss c b a bad (omega arith) (ground arith) in ground arith

  -- One valid sample in SENSOR_FAULT, while more are needed.
  pub recovery_step :
      (c : Controller) (s : Sample) (b : Board)
      → c.state ≡ CtrlState.sensor_fault
      → c.power_is_dying ≡ false
      → sample_is_valid s ≡ true
      → c.sensor_ok_streak + 1 < c.cfg.recovery_threshold
      → c.sensor_ok_streak < 255
      → let (e, c', b') = ctrl_update table c s b in
        (e ≡ Err.not_ready)
        × (c'.cfg ≡ c.cfg)
        × (c'.filter ≡ c.filter)
        × (c'.power_is_dying ≡ false)
        × (c'.state ≡ CtrlState.sensor_fault)
        × (c'.relay_on ≡ c.relay_on)
        × (c'.sensor_ok_streak ≡ c.sensor_ok_streak + 1)
  unfolding ctrl_update on_valid
  recovery_step c s b f p g m k = ground arith

  recovering :
      (ss : List Sample) (c : Controller) (b : Board)
      → c.state ≡ CtrlState.sensor_fault
      → c.power_is_dying ≡ false
      → AllValid ss
      → c.sensor_ok_streak + length ss < c.cfg.recovery_threshold
      → c.cfg.recovery_threshold < 256
      → let c' = (ctrl_run c ss b).0 in
        (c'.cfg ≡ c.cfg)
        × (c'.filter ≡ c.filter)
        × (c'.power_is_dying ≡ false)
        × (c'.state ≡ CtrlState.sensor_fault)
        × (c'.relay_on ≡ c.relay_on)
        × (c'.sensor_ok_streak ≡ c.sensor_ok_streak + length ss)
  unfolding ctrl_run
  recovering [] c b f p g m k = ground arith
  recovering (s ∷ ss) c b f p g m k =
      let (e, c', b') = ctrl_update table c s b in
      let t = recovery_step c s b f p g.0 (omega arith) (omega arith) in
      let q = recovering ss c' b' t.4 t.3 g.1 (ground arith) (ground arith) in ground arith

  module _ (ln : IsLnTable table) where
    -- A measured sample: RUN once the filter holds five samples, WARMUP before.
    pub measured_state :
        {seen : List ℤ} (c : Controller) (s : Sample) (b : Board)
        → Holds 4000 8500 c.filter seen
        → sample_is_valid s ≡ true
        → let (e, c', b') = measure table (counted c) s b in
          let full = length (slide seen s.temp_cd) == 5 in
          (e ≡ (if full then Err.ok else Err.warmup))
          × (c'.state ≡ (if full then CtrlState.run else CtrlState.warmup))
    measured_state {seen} c s b h g =
        let t = taken_lem (counted c) s h (sample_range s g).0 in
        elim (Bool-cases (length (slide seen s.temp_cd) == 5)) [
          | inl full ↦
              let f : (ma_update c.filter s.temp_cd).0 ≡ Err.ok = rw full at t.status in
              let d = dewed table (taken (counted c) s) in
              rw (full, measure-run table ln (counted c) s b f t.ranged)
                (after_dewpoint_status d b, after_dewpoint_runs d b)
          | inr more ↦
              let f : (ma_update c.filter s.temp_cd).0 ≡ Err.warmup = rw more at t.status in
              rw (more, measure-warmup table (counted c) s b f) (refl, refl)
        ]

    -- The sample that completes the recovery.
    pub recovered_step :
        (c : Controller) (s : Sample) (b : Board)
        → c.state ≡ CtrlState.sensor_fault
        → c.power_is_dying ≡ false
        → sample_is_valid s ≡ true
        → c.sensor_ok_streak + 1 ≡ c.cfg.recovery_threshold
        → c.sensor_ok_streak < 255
        → ctrl_update table c s b ≡ measure table (counted c) s b
    unfolding ctrl_update on_valid
    recovered_step c s b f p g m k =
        ground (arith, measure_any_streak table (counted c) s b (u8 (c.sensor_ok_streak + 1)))

    -- In SENSOR_FAULT with no valid sample counted yet, fewer valid samples than the recovery
    -- threshold leave the fault and the relay as they are; the sample that reaches the threshold is
    -- measured, and means RUN if the filter is then full and WARMUP otherwise.
    pub fault_recovery :
        {seen : List ℤ} (c : Controller) (ss : List Sample) (s : Sample) (b : Board)
        → IsValid seen c
        → c.state ≡ CtrlState.sensor_fault
        → c.sensor_ok_streak ≡ 0
        → AllValid ss
        → sample_is_valid s ≡ true
        → length ss + 1 ≡ c.cfg.recovery_threshold
        → c.cfg.recovery_threshold < 256
        → let (d, b') = ctrl_run c ss b in
          (d.state ≡ CtrlState.sensor_fault)
          × (d.relay_on ≡ c.cfg.relay_safe_state)
          × ((ctrl_update table d s b').1.state
              ≡ (if length (slide seen s.temp_cd) == 5 then CtrlState.run else CtrlState.warmup))
    fault_recovery {seen} c ss s b v f z g h n k =
        let powered : c.power_is_dying ≡ false = ground (arith, v.flags.dying) in
        let (d, b') = ctrl_run c ss b in
        let (same_cfg, same_filter, on, still, relay, streak) =
          recovering ss c b f powered g (omega arith) k in
        let holds : Holds 4000 8500 d.filter seen = rw same_filter v.holds in
        let safe : c.relay_on ≡ c.cfg.relay_safe_state = v.flags.relay_safe (ground arith) in
        let last = recovered_step d s b' still on h (ground arith) (ground arith) in
        (still, relay ∙ safe, rw last (measured_state d s b' holds h).1)
