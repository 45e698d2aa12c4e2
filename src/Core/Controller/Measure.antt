-- ===== src/Core/Controller/Measure.antt =====
-- One measured sample: the filter, then the dew point, as equations for `measure`.
use climate_node.Prelude.{ℕ, refl, ◌≤ℤ◌, ◌≡◌, List, arith, ℤ, ◌==◌, if◌then◌else◌, length}
use climate_node.Platform.{Board}
use climate_node.Core.Types.{temp_cd_min, Err, Sample}
use climate_node.Core.Filter.{ma_update}
use climate_node.Core.Filter.Window.{Holds, slide, ma_update-Holds}
use climate_node.Core.Dewpoint.{IsLnTable, dewpoint_calc_cd}
use climate_node.Core.Dewpoint.Range.{InRange}
use climate_node.Core.Dewpoint.Laws.{dewpoint_calc_bounds}
use climate_node.Core.Controller.{CtrlState, Controller, ctrl_set_relay}
use climate_node.Core.Controller.Step.{after_dewpoint, after_filter, measure}

-- The controller once the sample is in the filter.
unfoldable pub taken : Controller → Sample → Controller
taken c s =
    let (e, avg, n, g) = ma_update c.filter s.temp_cd in
    record c { sensor_ok_streak = 0; humidity_cp = s.rh_cp; filter = g; filtered_temp_cd = avg }

-- What a sample in range does to the filter of a valid controller.
pub record IsTaken (seen : List ℤ) (c : Controller) (s : Sample) : Type 0 where
  pub holds : Holds 4000 8500 (taken c s).filter (slide seen s.temp_cd)
  pub status :
      (ma_update c.filter s.temp_cd).0
      ≡ (if length (slide seen s.temp_cd) == 5 then Err.ok else Err.warmup)
  pub ranged : InRange (taken c s).filtered_temp_cd

pub taken_lem :
    {seen : List ℤ} (c : Controller) (s : Sample)
    → Holds 4000 8500 c.filter seen
    → InRange s.temp_cd
    → IsTaken seen c s
unfolding taken
taken_lem c s h r =
    let u = ma_update-Holds 4000 8500 (omega arith) (omega arith) s.temp_cd h r in
    record { holds = u.0; status = u.3; ranged = u.4 }

module _ (table : ℕ → ℤ) where
  -- The dew point of the controller's filtered temperature and humidity.
  unfoldable pub dewed : Controller → Controller
  dewed c = record c {
    dew_point_cd = (dewpoint_calc_cd table c.filtered_temp_cd c.humidity_cp c.dew_point_cd).1;
  }

  pub measure-warmup :
      (c : Controller) (s : Sample) (b : Board)
      → (ma_update c.filter s.temp_cd).0 ≡ Err.warmup
      → measure table c s b ≡ (
        Err.warmup,
        record (taken c s) {
          state = CtrlState.warmup;
          last_error = Err.warmup;
          relay_on = c.cfg.relay_safe_state;
        },
        b,
      )
  unfolding measure after_filter taken ctrl_set_relay
  measure-warmup c s b e = rw e

  pub measure-run :
      (ln : IsLnTable table) (c : Controller) (s : Sample) (b : Board)
      → (ma_update c.filter s.temp_cd).0 ≡ Err.ok
      → InRange (taken c s).filtered_temp_cd
      → measure table c s b ≡ after_dewpoint Err.ok (dewed (taken c s)) b
  unfolding measure after_filter taken dewed
  measure-run ln c s b e r =
      let d : (dewpoint_calc_cd table (ma_update c.filter s.temp_cd).1 s.rh_cp c.dew_point_cd).0
          ≡ Err.ok =
        (dewpoint_calc_bounds table ln _ s.rh_cp c.dew_point_cd r).0 in
      rw (e, d)

  pub dewed_facts :
      (ln : IsLnTable table) (c : Controller) (s : Sample)
      → InRange (taken c s).filtered_temp_cd
      → let d = dewed (taken c s) in
        (d.dew_point_cd ≤ℤ d.filtered_temp_cd)
        × (temp_cd_min ≤ℤ d.dew_point_cd)
        × InRange d.filtered_temp_cd
        × (d.cfg ≡ c.cfg)
        × (d.relay_on ≡ c.relay_on)
  unfolding taken dewed
  dewed_facts ln c s r =
      let q =
        dewpoint_calc_bounds table ln (ma_update c.filter s.temp_cd).1 s.rh_cp c.dew_point_cd r in
      (q.1, q.2, r, refl, refl)
