-- ===== src/Core/Diagnostics.antt =====
-- src/core/diagnostics.c: counters over the recorded control cycles. A function that changes `*d`
-- returns it; its address is never null.
pub mod Counts
use climate_node.Prelude.{
  ℕ, ◌+◌, ◌-◌, ◌%◌, ◌^◌, Bool, true, false, not, ◌&&◌, ◌||◌, u32, ltb, if◌then◌else◌,
}
use climate_node.Core.Types.{Err}
use climate_node.Core.Controller.{CtrlState}

abbrev pub diag_is_fault_state : CtrlState → Bool
diag_is_fault_state CtrlState.sensor_fault = true
diag_is_fault_state CtrlState.math_fault = true
diag_is_fault_state CtrlState.safe = true
diag_is_fault_state _ = false

-- `diagnostics_t`
pub record Diagnostics : Type 0 where
  pub started_ms : ℕ
  pub last_sample_ms : ℕ
  pub sample_count : ℕ
  pub fault_events : ℕ
  pub sensor_error_count : ℕ
  pub warmup_count : ℕ
  pub last_error : Err
  pub last_state : CtrlState
  pub relay_on : Bool
  pub initialized : Bool

unfoldable pub diag_init : ℕ → Diagnostics
diag_init now_ms = record {
  started_ms = now_ms;
  last_sample_ms = now_ms;
  sample_count = 0;
  fault_events = 0;
  sensor_error_count = 0;
  warmup_count = 0;
  last_error = Err.not_ready;
  last_state = CtrlState.init;
  relay_on = false;
  initialized = false;
}

abbrev is_warmup : Err → Bool
is_warmup Err.warmup = true
is_warmup _ = false

abbrev is_sensor : Err → Bool
is_sensor Err.sensor = true
is_sensor _ = false

unfoldable pub diag_record : Diagnostics → ℕ → CtrlState → Err → Bool → Bool → Diagnostics
diag_record d now_ms state err relay processed =
    let prev_state = d.last_state in
    let prev_initialized = d.initialized in
    let d1 = record d { last_error = err; relay_on = relay } in
    if not processed
    then d1
    else (let d2 = record d1 {
      sample_count = u32 (d1.sample_count + 1);
      last_sample_ms = now_ms;
    } in
        let d3 =
          if is_warmup err then record d2 { warmup_count = u32 (d2.warmup_count + 1) } else d2 in
        let d4 =
          if is_sensor err
          then record d3 { sensor_error_count = u32 (d3.sensor_error_count + 1) }
          else d3 in
        let is_fault = diag_is_fault_state state in
        let was_fault = prev_initialized && diag_is_fault_state prev_state in
        let d5 =
          if is_fault && not was_fault
          then record d4 { fault_events = u32 (d4.fault_events + 1) }
          else d4 in
        record d5 { last_state = state; initialized = true })

unfoldable pub diag_uptime_ms : Diagnostics → ℕ → ℕ
diag_uptime_ms d now_ms = if ltb now_ms d.started_ms then 0 else now_ms - d.started_ms
