-- ===== src/Core/Controller/Control.antt =====
-- A control decision: what a call of `ctrl_update` that returns `ERR_OK` has done.
use climate_node.Prelude.{
  ℕ, ◌+◌, ◌≡◌, refl, ◌∙◌, sym, ap, inl, inr, Bool, true, false, arith, ℤ, ◌-ℤ◌, ◌≤ℤ◌, ◌<ℤ◌, i32,
  i32_id, Within, u8, u32, ◌==◌, ltb_ℤ, if◌then◌else◌, Bool-cases, length, -ℤ-Within,
}
use climate_node.Platform.{Board}
use climate_node.Core.Types.{Err, Sample, temp_cd_min}
use climate_node.Core.Filter.{ma_update}
use climate_node.Core.Filter.Window.{slide}
use climate_node.Core.Dewpoint.{IsLnTable}
use climate_node.Core.Controller.{CtrlState, ControllerConfig, Controller, sample_is_valid}
use climate_node.Core.Controller.Measure.{
  taken, taken_lem, dewed, measure-warmup, measure-run, dewed_facts,
}
use climate_node.Core.Controller.Step.{
  Outcome, is_safe, on_invalid, decide_relay, clear_crashes, after_dewpoint, measure, on_valid,
  ctrl_update,
}
use climate_node.Core.Controller.Safety.{WellFormed, sample_range}

-- The sample is counted and the run of errors ends.
abbrev pub counted : Controller → Controller
counted c = record c { sample_count = u32 (c.sample_count + 1); sensor_error_streak = 0 }

-- The relay by the two thresholds: on below the first, off above the second, kept between them.
abbrev pub hysteresis : ControllerConfig → ℤ → Bool → Bool
hysteresis cfg margin relay =
    if ltb_ℤ margin cfg.dew_margin_on_cd
    then true
    else if ltb_ℤ cfg.dew_margin_off_cd margin
    then false
    else relay

pub after_dewpoint_decides :
    (d : Controller) (b : Board)
    → d.cfg.dew_margin_on_cd <ℤ d.cfg.dew_margin_off_cd
    → let (e, c', b') = after_dewpoint Err.ok d b in
      (c'.relay_on ≡ hysteresis d.cfg (i32 (d.filtered_temp_cd -ℤ d.dew_point_cd)) d.relay_on)
      × (c'.state ≡ CtrlState.run)
      × (c'.last_error ≡ Err.ok)
      × (c'.watchdog_crash_counter ≡ 0)
      × (c'.filtered_temp_cd ≡ d.filtered_temp_cd)
      × (c'.dew_point_cd ≡ d.dew_point_cd)
      × (c'.cfg ≡ d.cfg)
unfolding after_dewpoint decide_relay clear_crashes
after_dewpoint_decides d b h = ground arith

pub after_dewpoint_status : (d : Controller) (b : Board) → (after_dewpoint Err.ok d b).0 ≡ Err.ok
unfolding after_dewpoint
after_dewpoint_status d b = refl

pub after_dewpoint_runs :
    (d : Controller) (b : Board) → (after_dewpoint Err.ok d b).1.state ≡ CtrlState.run
unfolding after_dewpoint
after_dewpoint_runs d b = refl

pub measure_any_streak :
    (table : ℕ → ℤ) (c : Controller) (s : Sample) (b : Board) (n : ℕ)
    → measure table (record c { sensor_ok_streak = n }) s b ≡ measure table c s b
unfolding measure
measure_any_streak table c s b n = refl

module _ (table : ℕ → ℤ) where
  -- A call that returns `ERR_OK` has measured a valid sample.
  measured_of_ok :
      (c : Controller) (s : Sample) (b : Board)
      → (ctrl_update table c s b).0 ≡ Err.ok
      → (sample_is_valid s ≡ true)
        × (is_safe c.state ≡ false)
        × (c.power_is_dying ≡ false)
        × (ctrl_update table c s b ≡ measure table (counted c) s b)
  unfolding ctrl_update on_invalid on_valid
  measured_of_ok c s b h =
      ground (arith, measure_any_streak table (counted c) s b (u8 (c.sensor_ok_streak + 1)))

  module _ (ln : IsLnTable table) where
    -- What a decision leaves.
    pub record IsDecided (c : Controller) (s : Sample) (c' : Controller) : Type 0 where
      pub valid : sample_is_valid s ≡ true
      pub running : c'.state ≡ CtrlState.run
      pub no_error : c'.last_error ≡ Err.ok
      pub forgiven : c'.watchdog_crash_counter ≡ 0
      pub cool : c'.dew_point_cd ≤ℤ c'.filtered_temp_cd
      pub decided :
          c'.relay_on ≡ hysteresis c.cfg (c'.filtered_temp_cd -ℤ c'.dew_point_cd) c.relay_on

    -- The margin between the filtered temperature and a dew point below it fits 32 bits.
    margin_exact :
        (t d : ℤ) → Within 4000 8500 t → d ≤ℤ t → temp_cd_min ≤ℤ d → i32 (t -ℤ d) ≡ t -ℤ d
    margin_exact t d h k l =
        let w : Within 4000 8500 d = ground arith in
        let m = -ℤ-Within 4000 8500 4000 8500 t d h w in i32_id (t -ℤ d) (omega arith)

    -- A call on a well-formed controller that returns `ERR_OK` had a valid sample, leaves RUN with no
    -- error and no watchdog crash on record, a dew point not above the filtered temperature, and the
    -- relay as the two thresholds decide it on the exact margin.
    pub ctrl_update-IsDecided :
        (c : Controller) (s : Sample) (b : Board)
        → WellFormed c
        → (ctrl_update table c s b).0 ≡ Err.ok
        → IsDecided c s (ctrl_update table c s b).1
    ctrl_update-IsDecided c s b (seen, v) h =
        let (valid, awake, powered, e) = measured_of_ok c s b h in
        let t = taken_lem (counted c) s v.holds (sample_range s valid).0 in
        elim (Bool-cases (length (slide seen s.temp_cd) == 5)) [
          | inl full ↦
              let f : (ma_update c.filter s.temp_cd).0 ≡ Err.ok = rw full at t.status in
              let d = dewed table (taken (counted c) s) in
              let q = dewed_facts table ln (counted c) s t.ranged in
              let p = after_dewpoint_decides d b (rw q.3 v.sane.hysteresis) in
              let m = margin_exact d.filtered_temp_cd d.dew_point_cd q.2 q.0 q.1 in
              let same : hysteresis d.cfg (i32 (d.filtered_temp_cd -ℤ d.dew_point_cd)) d.relay_on
                  ≡ hysteresis c.cfg (d.filtered_temp_cd -ℤ d.dew_point_cd) c.relay_on =
                rw (m, q.3, q.4) in
              rw (e, measure-run table ln (counted c) s b f t.ranged)
                record {
                  valid = valid;
                  running = p.1;
                  no_error = p.2;
                  forgiven = p.3;
                  cool = rw (p.4, p.5) q.0;
                  decided = rw (p.4, p.5) (p.0 ∙ same);
                }
          | inr more ↦
              let f : (ma_update c.filter s.temp_cd).0 ≡ Err.warmup = rw more at t.status in
              let g : Err.warmup ≡ Err.ok =
                sym (ap (λ (o : Outcome). o.0) (e ∙ measure-warmup table (counted c) s b f)) ∙ h in
              cc
        ]
