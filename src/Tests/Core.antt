-- ===== src/Tests/Core.antt =====
-- The theorems on the core at concrete data.
use climate_node.Prelude.{
  ◌+◌, ◌<◌, ◌≡◌, refl, arith, true, false, none, List, [], ◌∷◌, pos, negsuc, ltb, if◌then◌else◌,
  ◌-ℤ◌, ◌+ℤ◌, i32, ◌*ℤ◌, ◌/ℤ◌, ◌≤ℤ◌, Within,
}
use climate_node.Prelude.{◌⊎◌, ◌<ℤ◌}
use climate_node.Platform.{Board}
use climate_node.Core.Types.{Err, Quality, ResetCause, Sample, temp_cd_min, temp_cd_max}
use climate_node.Core.Filter.{ma_init, ma_store, ma_advance, ma_update}
use climate_node.Core.Filter.Mean.{total}
use climate_node.Core.Filter.Window.{Holds, ma_init-Holds, ma_update-Holds}
use climate_node.Core.Dewpoint.{
  dewpoint_calc_cd, ln_rh_q10, clamp_rh, interpolate, dew_of_alpha, clamp_dew, div_round_pos_den,
}
use climate_node.Core.Dewpoint.Round.{round_div, round_div_nearest}
use climate_node.Core.Dewpoint.Range.{InRange, magnus}
use climate_node.Core.Dewpoint.Laws.{
  dewpoint_calc_bounds, dewpoint_calc_mono, dewpoint_calc_outcomes,
}
use climate_node.Core.Controller.{
  CtrlState, Controller, controller_defaults, ctrl_set_relay, sane_margins, sane_config,
  sample_is_valid, ctrl_init, ctrl_init_extended, ctrl_force_emergency_shutdown,
}
use climate_node.Core.Controller.Step.{
  on_invalid, on_valid, measure, after_filter, after_dewpoint, decide_relay, clear_crashes,
  ctrl_update,
}
use climate_node.Core.Controller.Safety.{
  sane_config-IsSane, IsSane, IsFailSafe, IsValid, WellFormed, ctrl_init-WellFormed,
  ctrl_update-WellFormed,
}
use climate_node.Core.Controller.Boot.{Reach, Reach-IsFailSafe}
use climate_node.Core.Controller.Control.{IsDecided, ctrl_update-IsDecided}
use climate_node.Core.Controller.Faults.{IsAwake, ctrl_run, fault_debounce, fault_recovery}
use climate_node.Core.Controller.Counting.{Reach-recovers}
use climate_node.Core.Controller.Lockout.{Crashed, crash_lockout, shutdown_latches}
use climate_node.Core.Diagnostics.{diag_init}
use climate_node.Core.Diagnostics.Counts.{Cycle, diag_run, diag_run_counts}
use climate_node.Tests.Table.{magnitudes, ln_table, ln_table-IsLnTable}

abbrev damp : Sample
damp = record { temp_cd = pos 2500; rh_cp = 8000; timestamp_ms = 1000; quality = Quality.valid }

abbrev broken : Sample
broken = record { temp_cd = pos 2500; rh_cp = 8000; timestamp_ms = 1000; quality = Quality.fault }

abbrev board : Board
board = record { relay = false; backup = 0 }

round_div_nearest_example : Within 2 2 (negsuc 6 -ℤ round_div (negsuc 6) 5 *ℤ pos 5)
round_div_nearest_example = round_div_nearest (negsuc 6) 5 (omega arith)

dewpoint_calc_bounds_example :
    let (e, dew) = dewpoint_calc_cd ln_table (negsuc 999) 3000 (pos 0) in
    (e ≡ Err.ok) × (dew ≤ℤ negsuc 999) × (temp_cd_min ≤ℤ dew)
dewpoint_calc_bounds_example =
    dewpoint_calc_bounds ln_table ln_table-IsLnTable (negsuc 999) 3000 (pos 0)
      (omega arith, omega arith)

dewpoint_calc_mono_example :
    (dewpoint_calc_cd ln_table (pos 2500) 5000 (pos 0)).1
    ≤ℤ (dewpoint_calc_cd ln_table (pos 2500) 8000 (pos 0)).1
dewpoint_calc_mono_example =
    dewpoint_calc_mono ln_table ln_table-IsLnTable (pos 2500) 5000 8000 (pos 0)
      (omega arith, omega arith) (omega arith)

dewpoint_calc_outcomes_example :
    (InRange (pos 9000)
      × (dewpoint_calc_cd ln_table (pos 9000) 5000 (pos 7)
          ≡ (Err.ok, magnus ln_table (pos 9000) 5000)))
    ⊎ (((pos 9000 <ℤ temp_cd_min) ⊎ (temp_cd_max <ℤ pos 9000))
        × (dewpoint_calc_cd ln_table (pos 9000) 5000 (pos 7) ≡ (Err.out_of_range, pos 7)))
dewpoint_calc_outcomes_example =
    dewpoint_calc_outcomes ln_table ln_table-IsLnTable (pos 9000) 5000 (pos 7)

ma_update-Holds_example :
    let (e, avg, n, g) = ma_update ma_init (pos 2500) in
    Holds 4000 8500 g (pos 2500 ∷ [])
    × (avg ≡ total (pos 2500 ∷ []) /ℤ pos 1)
    × (n ≡ 1)
    × (e ≡ Err.warmup)
    × Within 4000 8500 avg
ma_update-Holds_example =
    ma_update-Holds 4000 8500 (omega arith) (omega arith) (pos 2500) (ma_init-Holds 4000 8500)
      (omega arith, omega arith)

abbrev next : Controller → Controller
next c = (ctrl_update ln_table c damp board).1

next-WellFormed : (c : Controller) → WellFormed c → WellFormed (next c)
next-WellFormed c w = ctrl_update-WellFormed ln_table ln_table-IsLnTable c damp board w

abbrev fourth : Controller
fourth = next (next (next (next (ctrl_init none))))

fourth-WellFormed : WellFormed fourth
fourth-WellFormed =
    next-WellFormed _
      (next-WellFormed _ (next-WellFormed _ (next-WellFormed _ (ctrl_init-WellFormed none))))

-- The fifth sample fills the filter.
fifth_ok : (ctrl_update ln_table fourth damp board).0 ≡ Err.ok
unfolding ctrl_update ctrl_init sane_config sane_margins sample_is_valid on_valid measure
    after_filter after_dewpoint decide_relay clear_crashes ctrl_set_relay ma_init ma_update ma_store
    ma_advance dewpoint_calc_cd ln_rh_q10 clamp_rh interpolate dew_of_alpha clamp_dew
    div_round_pos_den i32 ◌+ℤ◌ ◌-ℤ◌ ◌*ℤ◌ ◌/ℤ◌ magnitudes
fifth_ok = refl

ctrl_update-IsDecided_example :
    IsDecided ln_table ln_table-IsLnTable fourth damp (ctrl_update ln_table fourth damp board).1
ctrl_update-IsDecided_example =
    ctrl_update-IsDecided ln_table ln_table-IsLnTable fourth damp board fourth-WellFormed fifth_ok

abbrev powered_up : Controller × Board
powered_up = ctrl_init_extended none ResetCause.power_on board

abbrev sampled_once : Controller × Board
sampled_once = (
  (ctrl_update ln_table powered_up.0 damp powered_up.1).1,
  (ctrl_update ln_table powered_up.0 damp powered_up.1).2,
)

abbrev shut_down : Controller × Board
shut_down = ctrl_force_emergency_shutdown sampled_once.0 sampled_once.1

Reach-IsFailSafe_example : IsFailSafe shut_down.0 × IsSane shut_down.0.cfg
Reach-IsFailSafe_example =
    Reach-IsFailSafe ln_table-IsLnTable
      (Reach.dying (Reach.sampled damp (Reach.booted none ResetCause.power_on board)))

abbrev running : Controller
running = record (ctrl_init none) { state = CtrlState.run; relay_on = true }

running-IsAwake : IsAwake running
unfolding ctrl_init
running-IsAwake = (ground arith, refl)

running_streak : running.sensor_error_streak ≡ 0
unfolding ctrl_init
running_streak = refl

running_threshold : 0 < running.cfg.fault_threshold
unfolding ctrl_init sane_config sane_margins
running_threshold = omega arith

broken_invalid : sample_is_valid broken ≡ false
unfolding sample_is_valid
broken_invalid = refl

damp_valid : sample_is_valid damp ≡ true
unfolding sample_is_valid
damp_valid = refl

abbrev outage : List Sample
outage = broken ∷ broken ∷ broken ∷ []

fault_debounce_example :
    let c' = (ctrl_run ln_table running outage board).0 in
    (c'.state
      ≡ (if ltb 3 running.cfg.fault_threshold then running.state else CtrlState.sensor_fault))
    × (c'.relay_on ≡ (
        if ltb 3 running.cfg.fault_threshold
        then running.relay_on
        else running.cfg.relay_safe_state))
fault_debounce_example =
    fault_debounce ln_table running outage board running-IsAwake running_streak running_threshold
      (broken_invalid, (broken_invalid, (broken_invalid, tt))) (omega arith)

abbrev faulty : Controller
faulty = record (ctrl_init none) { state = CtrlState.sensor_fault }

faulty-IsValid : IsValid [] faulty
unfolding ctrl_init
faulty-IsValid = record {
  sane = sane_config-IsSane controller_defaults;
  holds = ma_init-Holds 4000 8500;
  flags = record { relay_safe = λ h. refl; no_math_fault = ground arith; dying = ground arith };
}

faulty_streak : faulty.sensor_ok_streak ≡ 0
unfolding ctrl_init
faulty_streak = refl

faulty_threshold : faulty.cfg.recovery_threshold ≡ 3
unfolding ctrl_init sane_config sane_margins
faulty_threshold = refl

abbrev two_damp : List Sample
two_damp = damp ∷ damp ∷ []

fault_recovery_example :
    let (d, b') = ctrl_run ln_table faulty two_damp board in
    (d.state ≡ CtrlState.sensor_fault)
    × (d.relay_on ≡ faulty.cfg.relay_safe_state)
    × ((ctrl_update ln_table d damp b').1.state ≡ CtrlState.warmup)
fault_recovery_example =
    fault_recovery ln_table ln_table-IsLnTable faulty two_damp damp board faulty-IsValid refl
      faulty_streak (damp_valid, (damp_valid, tt)) damp_valid (omega (arith, faulty_threshold))
      (omega (arith, faulty_threshold))

shutdown_latches_example :
    let (d, on) = ctrl_force_emergency_shutdown running board in
    let (c', b') = ctrl_run ln_table d two_damp on in
    (c'.state ≡ CtrlState.safe)
    × (c'.relay_on ≡ running.cfg.relay_safe_state)
    × (b'.relay ≡ running.cfg.relay_safe_state)
    × (b'.backup ≡ 0)
shutdown_latches_example = shutdown_latches ln_table running two_damp board

abbrev crashed_board : Board → Board
crashed_board b =
    (ctrl_run ln_table (ctrl_init_extended none ResetCause.watchdog b).0 []
      (ctrl_init_extended none ResetCause.watchdog b).1).1

abbrev fresh_board : Board
fresh_board =
    (ctrl_run ln_table (ctrl_init_extended none ResetCause.power_on board).0 []
      (ctrl_init_extended none ResetCause.power_on board).1).1

crash_lockout_example :
    let (c, b') =
      ctrl_init_extended none ResetCause.watchdog (crashed_board (crashed_board fresh_board)) in
    (b'.backup ≡ 2 + 1) × (c.state ≡ CtrlState.safe) × (c.relay_on ≡ c.cfg.relay_safe_state)
crash_lockout_example =
    crash_lockout ln_table none (Crashed.hung [] (Crashed.hung [] (Crashed.powered board []) tt) tt)
      (omega arith)

abbrev cycles : List Cycle
cycles =
    record {
      now_ms = 1;
      state = CtrlState.warmup;
      err = Err.warmup;
      relay = false;
      processed = true;
    }
    ∷ record {
      now_ms = 2;
      state = CtrlState.sensor_fault;
      err = Err.sensor;
      relay = false;
      processed = true;
    }
    ∷ record {
      now_ms = 3;
      state = CtrlState.sensor_fault;
      err = Err.sensor;
      relay = false;
      processed = false;
    }
    ∷ []

diag_run_counts_example :
    let d = diag_run (diag_init 0) cycles in
    (d.sample_count ≡ 2) × (d.sensor_error_count ≡ 1) × (d.warmup_count ≡ 1) × (d.fault_events ≡ 1)
diag_run_counts_example = diag_run_counts 0 cycles

-- Three invalid samples after the start.
abbrev after_broken : Controller × Board → Controller × Board
after_broken (c, b) = ((ctrl_update ln_table c broken b).1, (ctrl_update ln_table c broken b).2)

abbrev failed : Controller × Board
failed = after_broken (after_broken (after_broken (ctrl_init none, board)))

failed_reached : Reach ln_table failed.0 failed.1
failed_reached =
    Reach.sampled broken
      (Reach.sampled broken (Reach.sampled broken (Reach.initialised none board)))

failed-IsAwake : IsAwake failed.0
unfolding ctrl_update ctrl_init sane_config sane_margins sample_is_valid on_invalid ctrl_set_relay
failed-IsAwake = (ground arith, refl)

failed_threshold : failed.0.cfg.recovery_threshold ≡ 3
unfolding ctrl_update ctrl_init sane_config sane_margins sample_is_valid on_invalid ctrl_set_relay
failed_threshold = refl

Reach-recovers_example :
    (ctrl_run ln_table failed.0
      (damp ∷ damp ∷ damp ∷ damp ∷ damp ∷ damp ∷ damp ∷ [])
      failed.1).0.state
    ≡ CtrlState.run
Reach-recovers_example =
    Reach-recovers (damp ∷ damp ∷ damp ∷ damp ∷ damp ∷ damp ∷ damp ∷ []) ln_table-IsLnTable
      failed_reached failed-IsAwake (omega (arith, failed_threshold))
      (
        damp_valid,
        (damp_valid, (damp_valid, (damp_valid, (damp_valid, (damp_valid, (damp_valid, tt)))))),
      )
      (omega (arith, failed_threshold))
