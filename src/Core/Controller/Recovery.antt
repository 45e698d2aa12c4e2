-- ===== src/Core/Controller/Recovery.antt =====
-- The way back to RUN: how many valid samples it takes.
use climate_node.Prelude.{
  ℕ, suc, ◌+◌, ◌≤◌, ◌<◌, ◌≡◌, ◌≢◌, ◌∙◌, sym, ap, ◌⊎◌, inl, inr, true, false, List, [], ◌∷◌, arith,
  ℤ, ◌==◌, if◌then◌else◌, Bool-cases, length, drop, length-append, length-drop, ltb,
}
use climate_node.Core.Types.{Sample}
use climate_node.Core.Filter.Window.{slide}
use climate_node.Core.Dewpoint.{IsLnTable}
use climate_node.Platform.{Board}
use climate_node.Core.Controller.{CtrlState, Controller, sample_is_valid}
use climate_node.Core.Controller.Step.{measure, on_valid, ctrl_update}
use climate_node.Core.Controller.Safety.{IsFailSafe, IsValid, sample_range, measure-IsValid}
use climate_node.Core.Controller.Faults.{
  AllValid, IsAwake, ctrl_run, measured_state, recovery_step, recovered_step,
}
use climate_node.Core.Controller.Control.{counted}

-- Five items at most, one more each time.
length-slide :
    (w : List ℤ) (x : ℤ)
    → length w ≤ 5
    → length (slide w x) ≡ (if length w == 5 then 5 else suc (length w))
length-slide w x h =
    ground (arith, length-append w (x ∷ []), length-append (drop 1 w) (x ∷ []), length-drop 1 w)

-- Enough valid samples are to come: none in RUN with a full filter; while measuring, those that fill the
-- filter; in a fault, four after those that end it.
abbrev Enough : List ℤ → Controller → ℕ → Type 0
Enough seen c n =
    ((c.state ≡ CtrlState.run) × (length seen ≡ 5))
    ⊎ (((c.state ≢ CtrlState.sensor_fault) × (1 ≤ n) × (5 ≤ length seen + n))
        ⊎ ((c.state ≡ CtrlState.sensor_fault)
            × (c.sensor_ok_streak < c.cfg.recovery_threshold)
            × (c.cfg.recovery_threshold < 256)
            × (c.cfg.recovery_threshold + 4 ≤ c.sensor_ok_streak + n)))

awake : {c : Controller} → IsFailSafe c → c.state ≢ CtrlState.safe → IsAwake c
awake {c} flags live =
    (live, elim (Bool-cases c.power_is_dying) [ inl e ↦ absurd (live (flags.dying e)) | inr e ↦ e ])

module _ (table : ℕ → ℤ) where
  -- Outside a fault a valid sample is measured.
  measured_step :
      (c : Controller) (s : Sample) (b : Board)
      → IsAwake c
      → c.state ≢ CtrlState.math_fault
      → c.state ≢ CtrlState.sensor_fault
      → sample_is_valid s ≡ true
      → ctrl_update table c s b ≡ measure table (counted c) s b
  unfolding ctrl_update on_valid
  measured_step c s b a m f g = ground arith

  module _ (ln : IsLnTable table) where
    -- What is left after a measured sample.
    after_measured :
        {seen : List ℤ} (c : Controller) (s : Sample) (b : Board) (n : ℕ)
        → IsValid seen c
        → c.power_is_dying ≡ false
        → sample_is_valid s ≡ true
        → 5 ≤ length seen + suc n
        → let c' = (measure table (counted c) s b).1 in
          IsValid (slide seen s.temp_cd) c' × IsAwake c' × Enough (slide seen s.temp_cd) c' n
    after_measured {seen} c s b n v on g h =
        let valid =
          measure-IsValid table ln (counted c) s b v.sane v.holds on (sample_range s g).0 in
        let c' = (measure table (counted c) s b).1 in
        let state = (measured_state table ln c s b v.holds g).1 in
        let size = length-slide seen s.temp_cd v.holds.fits in
        elim (Bool-cases (length (slide seen s.temp_cd) == 5)) [
          | inl full ↦
              let runs : c'.state ≡ CtrlState.run = rw full at state in
              (valid, awake valid.flags (ground (arith, runs)), inl (runs, ground arith))
          | inr more ↦
              let warms : c'.state ≡ CtrlState.warmup = rw more at state in
              (
                valid,
                awake valid.flags (ground (arith, warms)),
                inr (inl (ground (arith, warms), ground (arith, size), ground (arith, size))),
              )
        ]

    -- While more are needed in a fault.
    after_counted :
        {seen : List ℤ} (c : Controller) (s : Sample) (b : Board) (n : ℕ)
        → IsValid seen c
        → c.state ≡ CtrlState.sensor_fault
        → c.power_is_dying ≡ false
        → sample_is_valid s ≡ true
        → c.sensor_ok_streak + 1 < c.cfg.recovery_threshold
        → c.cfg.recovery_threshold < 256
        → c.cfg.recovery_threshold + 4 ≤ c.sensor_ok_streak + suc n
        → let c' = (ctrl_update table c s b).1 in IsValid seen c' × IsAwake c' × Enough seen c' n
    after_counted c s b n v f p g m k h =
        let (e, cfg, filter, on, still, relay, streak) =
          recovery_step table c s b f p g m (omega arith) in
        let safe : c.relay_on ≡ c.cfg.relay_safe_state = v.flags.relay_safe (ground arith) in
        (
          record {
            sane = rw cfg v.sane;
            holds = rw filter v.holds;
            flags = record {
              relay_safe = λ q. relay ∙ safe ∙ sym (ap (λ d. d.relay_safe_state) cfg);
              no_math_fault = ground arith;
              dying = ground arith;
            };
          },
          (ground arith, on),
          inr (inr (still, ground arith, ground arith, ground arith)),
        )

    Enough-step :
        {seen : List ℤ} (c : Controller) (s : Sample) (b : Board) (n : ℕ)
        → IsValid seen c
        → IsAwake c
        → sample_is_valid s ≡ true
        → Enough seen c (suc n)
        → let c' = (ctrl_update table c s b).1 in
          (seen' : List ℤ) × IsValid seen' c' × IsAwake c' × Enough seen' c' n
    Enough-step {seen} c s b n v a g (inl (runs, full)) =
        rw (measured_step c s b a v.flags.no_math_fault (ground arith) g) (
          let (v', a', h') = after_measured c s b n v a.1 g (omega arith) in
          (slide seen s.temp_cd, v', a', h'))
    Enough-step {seen} c s b n v a g (inr (inl (calm, some_left, enough))) =
        rw (measured_step c s b a v.flags.no_math_fault calm g) (
          let (v', a', h') = after_measured c s b n v a.1 g enough in
          (slide seen s.temp_cd, v', a', h'))
    Enough-step {seen} c s b n v a g (inr (inr (fault, below, small, enough))) =
        elim (Bool-cases (ltb (c.sensor_ok_streak + 1) c.cfg.recovery_threshold)) [
          | inl more ↦
              let (v', a', h') = after_counted c s b n v fault a.1 g (ground arith) small enough in
              (seen, v', a', h')
          | inr last ↦ rw (recovered_step table ln c s b fault a.1 g (ground arith) (omega arith)) (
              let (v', a', h') = after_measured c s b n v a.1 g (ground arith) in
              (slide seen s.temp_cd, v', a', h'))
        ]

    reach :
        (ss : List Sample) {seen : List ℤ} (c : Controller) (b : Board)
        → IsValid seen c
        → IsAwake c
        → AllValid ss
        → Enough seen c (length ss)
        → (ctrl_run table c ss b).0.state ≡ CtrlState.run
    unfolding ctrl_run
    reach [] c b v a g (inl (runs, full)) = runs
    reach [] c b v a g (inr (inl (calm, some_left, enough))) = absurd (omega arith)
    reach [] c b v a g (inr (inr (fault, below, small, enough))) = absurd (omega arith)
    reach (s ∷ ss) c b v a (gs, g) h =
        let (seen', v', a', h') = Enough-step c s b (length ss) v a gs h in
        reach ss (ctrl_update table c s b).1 (ctrl_update table c s b).2 v' a' g h'

    -- From every well-formed state but SAFE and dying power, with fewer valid samples counted than end a
    -- fault, a run of valid samples that is four longer than the recovery threshold, or more, ends in
    -- RUN.
    pub recovery_reaches_run :
        {seen : List ℤ} (c : Controller) (ss : List Sample) (b : Board)
        → IsValid seen c
        → IsAwake c
        → c.sensor_ok_streak < c.cfg.recovery_threshold
        → c.cfg.recovery_threshold < 256
        → AllValid ss
        → c.cfg.recovery_threshold + 4 ≤ length ss
        → (ctrl_run table c ss b).0.state ≡ CtrlState.run
    recovery_reaches_run {seen} c ss b v a below small g enough =
        reach ss c b v a g (ground (arith, v.sane.recoveries))
