-- ===== src/Tests/App.antt =====
-- The theorems on the application at concrete data.
use climate_node.Prelude.{
  ℕ, ◌+◌, ◌-◌, ◌==◌, if◌then◌else◌, ◌≡◌, ◌⊎◌, refl, arith, true, false, none, some, List, [], ◌∷◌,
  ◌<◌, set, pos, take, drop, i32, ◌+ℤ◌, ◌-ℤ◌, ◌*ℤ◌, ◌/ℤ◌,
}
use climate_node.Platform.{platform_relay_set}
use climate_node.Core.Types.{Err, Quality}
use climate_node.Core.Controller.{
  CtrlState, ctrl_init, sane_config, sane_margins, sample_is_valid, ctrl_set_relay, ctrl_relay_on,
}
use climate_node.Core.Controller.Step.{
  on_valid, on_invalid, measure, after_filter, after_dewpoint, decide_relay, clear_crashes,
  ctrl_update,
}
use climate_node.Core.Filter.{ma_init, ma_store, ma_advance, ma_update}
use climate_node.Core.Dewpoint.{
  dewpoint_calc_cd, ln_rh_q10, clamp_rh, interpolate, dew_of_alpha, clamp_dew, div_round_pos_den,
}
use climate_node.Service.Storage.Persist.{host_flash, storage_load}
use climate_node.Service.Storage.{storage_load_defaults}
use climate_node.Service.Storage.Flash.{
  Flash, mock_flash_init, is_erased, platform_flash_read_config,
}
use climate_node.App.Scheduler.{Task, Scheduler, sched_register}
use climate_node.App.Scheduler.Register.{IsTable, sched_register-IsTable}
use climate_node.App.Scheduler.Timetable.{passes, timetable}
use climate_node.App.Scheduler.Timetable.Passes.{entries, AllDue, passes_lem}
use climate_node.App.Node.{app_poll, drive_relay, App, World, SensorRead, app_init, app_task}
use climate_node.App.Node.Runs.{Runs, relay_only_in_run}
use climate_node.App.Node.Outage.{IsBroken, polls, outage_stops_relay}
use climate_node.Driver.I2c.{I2cOps}
use climate_node.Driver.Sht31.{sht31_read_sample, sht31_convert, temp_of_raw, rh_of_raw}
use climate_node.Tests.Table.{magnitudes, ln_table, ln_table-IsLnTable}
use climate_node.Tests.Service.{settings}

-- Tasks that count their runs.
abbrev task : ℕ → Task ℕ
task period = record { period_ms = period; next_ms = 5; fn = λ n. n + 1; name = "count" }

abbrev tasks : List (Task ℕ)
tasks = task 10 ∷ task 20 ∷ task 30 ∷ []

abbrev scheduler : Scheduler ℕ
scheduler = record { tasks = some tasks; capacity = 3; count = 2 }

abbrev count_up : ℕ → ℕ
count_up n = n + 1

abbrev forty : ℕ
forty = 40

scheduler-IsTable : IsTable scheduler tasks
scheduler-IsTable = record {
  stored = refl;
  sized = refl;
  fits = omega arith;
  timed = (omega arith, omega arith, omega arith, (omega arith, omega arith, omega arith, tt));
}

sched_register-IsTable_example :
    let (done, s') = sched_register scheduler forty (some count_up) "last" in
    ((done ≡ false)
      × (s' ≡ scheduler)
      × ((some count_up ≡ none) ⊎ ((forty ≡ 0) ⊎ (scheduler.count ≡ scheduler.capacity))))
    ⊎ ((f : ℕ → ℕ) × (some count_up ≡ some f)
        × (done ≡ true)
        × (0 < forty)
        × IsTable s' (
            set tasks scheduler.count
              (record { period_ms = forty; next_ms = 0; fn = f; name = "last" }))
        × (s'.count ≡ scheduler.count + 1))
sched_register-IsTable_example =
    sched_register-IsTable scheduler tasks forty (some count_up) "last" scheduler-IsTable
      (omega arith)

-- Both registered tasks are late by 15: more than the period of the first, less than that of the second.
tasks_due : AllDue 10 20 (take 2 tasks)
tasks_due = (
  (omega arith, omega arith),
  omega arith,
  refl,
  ((omega arith, omega arith), omega arith, refl, tt),
)

passes_lem_example :
    (passes 10 4 20 scheduler 0).1 ≡ timetable 10 0 4 (entries 10 20 (take 2 tasks)) 0
passes_lem_example =
    passes_lem 10 4 20 scheduler (take 2 tasks) (drop 2 tasks) 0 (omega arith) refl refl tasks_due

-- A driver that always gives the same sample, and counts.
abbrev damp_sensor : SensorRead ℕ
damp_sensor n old = (
  Err.ok,
  record { temp_cd = pos 2500; rh_cp = 8000; timestamp_ms = 0; quality = Quality.valid },
  n + 1,
)

abbrev world : World Flash ℕ
world = record { board = record { relay = true; backup = 0 }; flash = mock_flash_init; driver = 0 }

abbrev blank : App ℕ
blank = record {
  ctrl = ctrl_init none;
  read = none;
  cfg = settings;
  next_sample_ms = 0;
  relay_prev = false;
  ticket_mask = 0;
  required_tickets = 0;
}

-- Four polls after the start, one second apart; the fifth fills the filter and turns the relay on.
abbrev poll : ℕ → App ℕ × World Flash ℕ → App ℕ × World Flash ℕ
poll now (app, w) = ((app_task ln_table app now w).2, (app_task ln_table app now w).3)

abbrev begun : App ℕ × World Flash ℕ
begun = app_init host_flash blank (some damp_sensor) world

abbrev polled_four : App ℕ × World Flash ℕ
polled_four = poll 3000 (poll 2000 (poll 1000 (poll 0 begun)))

four_polls : Runs host_flash ln_table polled_four.0 polled_four.1
four_polls =
    Runs.polled 3000
      (Runs.polled 2000 (Runs.polled 1000 (Runs.polled 0 (Runs.started blank damp_sensor world))))

fifth_processed : (app_task ln_table polled_four.0 4000 polled_four.1).1 ≡ true
unfolding app_task app_init app_poll drive_relay ctrl_relay_on ctrl_update ctrl_init sane_config
    sane_margins sample_is_valid on_valid measure after_filter after_dewpoint decide_relay
    clear_crashes ctrl_set_relay ma_init ma_update ma_store ma_advance dewpoint_calc_cd ln_rh_q10
    clamp_rh interpolate dew_of_alpha clamp_dew div_round_pos_den i32 ◌+ℤ◌ ◌-ℤ◌ ◌*ℤ◌ ◌/ℤ◌ magnitudes
    storage_load platform_flash_read_config is_erased mock_flash_init storage_load_defaults
    platform_relay_set
fifth_processed = refl

fifth_on : (app_task ln_table polled_four.0 4000 polled_four.1).3.board.relay ≡ true
unfolding app_task app_init app_poll drive_relay ctrl_relay_on ctrl_update ctrl_init sane_config
    sane_margins sample_is_valid on_valid measure after_filter after_dewpoint decide_relay
    clear_crashes ctrl_set_relay ma_init ma_update ma_store ma_advance dewpoint_calc_cd ln_rh_q10
    clamp_rh interpolate dew_of_alpha clamp_dew div_round_pos_den i32 ◌+ℤ◌ ◌-ℤ◌ ◌*ℤ◌ ◌/ℤ◌ magnitudes
    storage_load platform_flash_read_config is_erased mock_flash_init storage_load_defaults
    platform_relay_set
fifth_on = refl

relay_only_in_run_example :
    let ctrl = (app_task ln_table polled_four.0 4000 polled_four.1).2.ctrl in
    (ctrl.state ≡ CtrlState.run) × (ctrl.relay_on ≡ true)
relay_only_in_run_example =
    relay_only_in_run ln_table ln_table-IsLnTable 4000 four_polls fifth_processed fifth_on

-- A bus that answers as many measurements as its state says, and none after.
abbrev dying_bus : I2cOps ℕ
dying_bus = record {
  mem_write = λ dev reg bytes n. (if n == 0 then Err.comm else Err.ok, n - 1);
  mem_read = λ dev reg len n. (Err.ok, 0x66 ∷ 0x66 ∷ 0 ∷ 0xcc ∷ 0xcc ∷ 0 ∷ [], n);
}

abbrev dying_sensor : SensorRead ℕ
dying_sensor = sht31_read_sample dying_bus

dying_sensor-IsBroken : IsBroken dying_sensor (λ n. n ≡ 0)
unfolding sht31_read_sample sample_is_valid
dying_sensor-IsBroken n now h = rw h (refl, refl)

-- The sensor fails after six measurements; the relay is on by then.
abbrev six_polls : App ℕ × World Flash ℕ
six_polls = poll 5000 (
    poll 4000 (
      poll 3000 (
        poll 2000 (
          poll 1000 (
            poll 0
              (app_init host_flash blank (some dying_sensor) (record world { driver = 6 })))))))

six_polls_run : Runs host_flash ln_table six_polls.0 six_polls.1
six_polls_run = Runs.polled 5000 (
    Runs.polled 4000 (
      Runs.polled 3000 (
        Runs.polled 2000 (
          Runs.polled 1000
            (Runs.polled 0 (Runs.started blank dying_sensor (record world { driver = 6 })))))))

-- Its state then, as it is computed.
six_polls_state :
    (six_polls.1.board.relay ≡ true)
    × (six_polls.1.driver ≡ 0)
    × (six_polls.0.ctrl.sensor_error_streak ≡ 0)
    × (six_polls.0.ctrl.cfg.fault_threshold ≡ 3)
    × ((polls ln_table (6000 ∷ 7000 ∷ 8000 ∷ []) six_polls.0 six_polls.1).0 ≡ 3)
    × (six_polls.0.read ≡ some dying_sensor)
unfolding app_task app_init app_poll drive_relay ctrl_relay_on ctrl_update ctrl_init sane_config
    sane_margins sample_is_valid on_valid on_invalid measure after_filter after_dewpoint
    decide_relay clear_crashes ctrl_set_relay ma_init ma_update ma_store ma_advance dewpoint_calc_cd
    ln_rh_q10 clamp_rh interpolate dew_of_alpha clamp_dew div_round_pos_den i32 ◌+ℤ◌ ◌-ℤ◌ ◌*ℤ◌ ◌/ℤ◌
    magnitudes storage_load platform_flash_read_config is_erased mock_flash_init
    storage_load_defaults platform_relay_set polls sht31_read_sample sht31_convert temp_of_raw
    rh_of_raw
six_polls_state = (refl, refl, refl, refl, refl, refl)

outage_stops_relay_example :
    (polls ln_table (6000 ∷ 7000 ∷ 8000 ∷ []) six_polls.0 six_polls.1).2.board.relay ≡ false
outage_stops_relay_example =
    outage_stops_relay ln_table dying_sensor (λ n. n ≡ 0) (6000 ∷ 7000 ∷ 8000 ∷ [])
      ln_table-IsLnTable six_polls_run six_polls_state.5 dying_sensor-IsBroken six_polls_state.1
      six_polls_state.2 (omega (arith, six_polls_state.3))
      (omega (arith, six_polls_state.3, six_polls_state.4))
