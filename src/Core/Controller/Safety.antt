-- ===== src/Core/Controller/Safety.antt =====
-- What holds of the controller between two calls, and that every call keeps it.
use climate_node.Prelude.{
  ℕ, ◌+◌, ◌≤◌, ◌<◌, ◌≡◌, refl, ◌≢◌, inl, inr, true, false, ◌||◌, Option, List, [], arith, ℤ, ◌<ℤ◌,
  u8, u32, ltb, ◌==◌, Bool-cases, length,
}
use climate_node.Platform.{Board}
use climate_node.Core.Types.{Err, Sample, Quality}
use climate_node.Core.Filter.{ma_update}
use climate_node.Core.Filter.Window.{Holds, slide, ma_init-Holds}
use climate_node.Core.Dewpoint.{IsLnTable}
use climate_node.Core.Dewpoint.Range.{InRange}
use climate_node.Core.Controller.{
  CtrlState, ControllerConfig, Controller, or_defaults, sane_margins, sane_config, ctrl_init,
  ctrl_set_relay, sample_is_valid,
}
use climate_node.Core.Controller.Measure.{taken, taken_lem, dewed, measure-warmup, measure-run}
use climate_node.Core.Controller.Step.{
  is_safe, needs_recovery, on_invalid, decide_relay, clear_crashes, after_dewpoint, measure,
  on_valid, ctrl_update,
}

-- What `ctrl_init` makes of any configuration.
pub record IsSane (cfg : ControllerConfig) : Type 0 where
  pub hysteresis : cfg.dew_margin_on_cd <ℤ cfg.dew_margin_off_cd
  pub faults : 0 < cfg.fault_threshold
  pub recoveries : 0 < cfg.recovery_threshold
  pub samples : 0 < cfg.sample_period_ms

-- Outside RUN the relay is in its safe state, the calculations never fail, and dying power leaves
-- only SAFE.
pub record IsFailSafe (c : Controller) : Type 0 where
  pub relay_safe : c.state ≢ CtrlState.run → c.relay_on ≡ c.cfg.relay_safe_state
  pub no_math_fault : c.state ≢ CtrlState.math_fault
  pub dying : c.power_is_dying ≡ true → c.state ≡ CtrlState.safe

-- `seen` are the samples that the filter holds, oldest first.
pub record IsValid (seen : List ℤ) (c : Controller) : Type 0 where
  pub sane : IsSane c.cfg
  pub holds : Holds 4000 8500 c.filter seen
  pub flags : IsFailSafe c

-- Valid, for some samples in the filter.
abbrev pub WellFormed : Controller → Type 0
WellFormed c = (seen : List ℤ) × IsValid seen c

pub sample_range :
    (s : Sample)
    → sample_is_valid s ≡ true
    → InRange s.temp_cd × (s.rh_cp ≤ 10000) × (s.quality ≡ Quality.valid)
unfolding sample_is_valid
sample_range s h = ground arith

abbrev IsLive : Controller → Type 0
IsLive c = (c.state ≢ CtrlState.safe) × (c.power_is_dying ≡ false)

on_invalid-flags :
    (c : Controller) (b : Board) → IsLive c → IsFailSafe c → IsFailSafe (on_invalid c b).1
unfolding on_invalid
on_invalid-flags c b l v = record {
  relay_safe = ground arith;
  no_math_fault = ground arith;
  dying = ground arith;
}

on_invalid-kept :
    (c : Controller) (b : Board)
    → ((on_invalid c b).1.cfg ≡ c.cfg) × ((on_invalid c b).1.filter ≡ c.filter)
unfolding on_invalid
on_invalid-kept c b = ground arith

after_dewpoint-flags :
    (c : Controller) (b : Board)
    → c.power_is_dying ≡ false
    → IsFailSafe (after_dewpoint Err.ok c b).1
unfolding after_dewpoint decide_relay clear_crashes
after_dewpoint-flags c b l = record {
  relay_safe = ground arith;
  no_math_fault = ground arith;
  dying = ground arith;
}

after_dewpoint-kept :
    (c : Controller) (b : Board)
    → ((after_dewpoint Err.ok c b).1.cfg ≡ c.cfg)
      × ((after_dewpoint Err.ok c b).1.filter ≡ c.filter)
unfolding after_dewpoint decide_relay clear_crashes
after_dewpoint-kept c b = ground arith

-- The counters of samples and of errors are free.
recount :
    {seen : List ℤ} {c : Controller} (samples errors : ℕ)
    → IsValid seen c
    → IsValid seen (record c { sample_count = samples; sensor_error_streak = errors })
recount samples errors v = record {
  sane = v.sane;
  holds = v.holds;
  flags = record {
    relay_safe = v.flags.relay_safe;
    no_math_fault = v.flags.no_math_fault;
    dying = v.flags.dying;
  };
}

module _ (table : ℕ → ℤ) where
  module _ (ln : IsLnTable table) where
    pub measure-IsValid :
        {seen : List ℤ} (c : Controller) (s : Sample) (b : Board)
        → IsSane c.cfg
        → Holds 4000 8500 c.filter seen
        → c.power_is_dying ≡ false
        → InRange s.temp_cd
        → IsValid (slide seen s.temp_cd) (measure table c s b).1
    measure-IsValid {seen} c s b sane h p r =
        let t = taken_lem c s h r in
        elim (Bool-cases (length (slide seen s.temp_cd) == 5)) [
          | inl full ↦
              let e : (ma_update c.filter s.temp_cd).0 ≡ Err.ok = rw full at t.status in
              let k = after_dewpoint-kept (dewed table (taken c s)) b in
              rw (measure-run table ln c s b e t.ranged) record {
                sane = rw k.0 (unfold dewed taken in sane);
                holds = rw k.1 (unfold dewed in t.holds);
                flags = after_dewpoint-flags (dewed table (taken c s)) b (unfold dewed taken in p);
              }
          | inr more ↦
              let e : (ma_update c.filter s.temp_cd).0 ≡ Err.warmup = rw more at t.status in
              rw (measure-warmup table c s b e) record {
                sane = unfold taken in sane;
                holds = t.holds;
                flags =
                    unfold taken in
                    record {
                      relay_safe = λ q. refl;
                      no_math_fault = ground arith;
                      dying = ground arith;
                    };
              }
        ]

    -- A valid sample that only counts towards recovery, or one that is measured.
    on_valid-WellFormed :
        {seen : List ℤ} (c : Controller) (s : Sample) (b : Board)
        → IsValid seen c
        → c.power_is_dying ≡ false
        → InRange s.temp_cd
        → WellFormed (on_valid table c s b).1
    unfolding on_valid
    on_valid-WellFormed {seen} c s b v p r = elim (Bool-cases (needs_recovery c.state)) [
      | inl f ↦
          let d = record c { sensor_ok_streak = u8 (c.sensor_ok_streak + 1) } in
          elim (Bool-cases (ltb d.sensor_ok_streak d.cfg.recovery_threshold)) [
            | inl few ↦
                rw (f, few)
                  (
                    seen,
                    record {
                      sane = v.sane;
                      holds = v.holds;
                      flags = record {
                        relay_safe = v.flags.relay_safe;
                        no_math_fault = v.flags.no_math_fault;
                        dying = v.flags.dying;
                      };
                    },
                  )
            | inr enough ↦
                rw (f, enough) (slide seen s.temp_cd, measure-IsValid d s b v.sane v.holds p r)
          ]
      | inr f ↦ rw f (slide seen s.temp_cd, measure-IsValid c s b v.sane v.holds p r)
    ]

    -- Every call of `ctrl_update` on a well-formed controller leaves it well-formed, whatever the
    -- sample: its configuration stays sane, its filter keeps the recent samples, outside RUN the
    -- relay is in the safe state, and MATH_FAULT is never entered.
    pub ctrl_update-WellFormed :
        (c : Controller) (s : Sample) (b : Board)
        → WellFormed c
        → WellFormed (ctrl_update table c s b).1
    unfolding ctrl_update
    ctrl_update-WellFormed c s b (seen, v) =
        elim (Bool-cases (is_safe c.state || c.power_is_dying)) [
          | inl stop ↦ rw stop (
            seen,
            unfold ctrl_set_relay in
                record {
                  sane = v.sane;
                  holds = v.holds;
                  flags = record {
                    relay_safe = λ q. refl;
                    no_math_fault = v.flags.no_math_fault;
                    dying = v.flags.dying;
                  };
                },
          )
          | inr go ↦
              let d = record c { sample_count = u32 (c.sample_count + 1) } in
              let live : IsLive c = (ground arith, ground arith) in
              elim (Bool-cases (sample_is_valid s)) [
                | inl good ↦
                    rw (go, good)
                      (on_valid-WellFormed (record d { sensor_error_streak = 0 }) s b
                        (recount d.sample_count 0 v) live.1 (sample_range s good).0)
                | inr bad ↦
                    let k = on_invalid-kept d b in
                    rw (go, bad)
                      (
                        seen,
                        record {
                          sane = rw k.0 v.sane;
                          holds = rw k.1 v.holds;
                          flags =
                              on_invalid-flags d b live
                                (recount d.sample_count d.sensor_error_streak v).flags;
                        },
                      )
              ]
        ]

pub sane_config-IsSane : (cfg : ControllerConfig) → IsSane (sane_config cfg)
unfolding sane_config sane_margins
sane_config-IsSane cfg = record {
  hysteresis = ground arith;
  faults = ground arith;
  recoveries = ground arith;
  samples = ground arith;
}

-- `ctrl_init` makes a well-formed controller of any configuration, or of none.
pub ctrl_init-WellFormed : (given : Option ControllerConfig) → WellFormed (ctrl_init given)
unfolding ctrl_init
ctrl_init-WellFormed given = (
  [],
  record {
    sane = sane_config-IsSane (or_defaults given);
    holds = ma_init-Holds 4000 8500;
    flags = record { relay_safe = λ q. refl; no_math_fault = ground arith; dying = ground arith };
  },
)
