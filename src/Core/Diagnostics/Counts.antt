-- ===== src/Core/Diagnostics/Counts.antt =====
-- The counters over a whole run, against counts of the recorded cycles.
use climate_node.Prelude.{
  ℕ, ◌+◌, ◌^◌, ◌<◌, ◌≡◌, Bool, true, false, not, ◌&&◌, List, [], ◌∷◌, arith, u32, if◌then◌else◌,
}
use climate_node.Core.Types.{Err}
use climate_node.Core.Controller.{CtrlState}
use climate_node.Core.Diagnostics.{
  Diagnostics, diag_is_fault_state, is_warmup, is_sensor, diag_init, diag_record,
}

-- The arguments of one call of `diag_record`.
pub record Cycle : Type 0 where
  pub now_ms : ℕ
  pub state : CtrlState
  pub err : Err
  pub relay : Bool
  pub processed : Bool

unfoldable pub diag_run : Diagnostics → List Cycle → Diagnostics
diag_run d [] = d
diag_run d (e ∷ es) = diag_run (diag_record d e.now_ms e.state e.err e.relay e.processed) es

abbrev pub one_if : Bool → ℕ
one_if b = if b then 1 else 0

-- How many processed cycles pass a test.
abbrev pub count_if : (Cycle → Bool) → List Cycle → ℕ
count_if p [] = 0
count_if p (e ∷ es) = one_if (e.processed && p e) + count_if p es

-- How often the processed cycles go from no fault to a fault; the first argument says whether the
-- cycle before was a fault.
abbrev pub edges : Bool → List Cycle → ℕ
edges was [] = 0
edges was (e ∷ es) =
    let fault = diag_is_fault_state e.state in
    one_if (e.processed && (fault && not was)) + edges (if e.processed then fault else was) es

abbrev was_fault : Diagnostics → Bool
was_fault d = d.initialized && diag_is_fault_state d.last_state

abbrev InWord : ℕ → Type 0
InWord n = n < 2 ^ 32

record IsWords (d : Diagnostics) : Type 0 where
  samples : InWord d.sample_count
  faults : InWord d.fault_events
  sensors : InWord d.sensor_error_count
  warmups : InWord d.warmup_count

diag_record-IsWords :
    (d : Diagnostics) (e : Cycle)
    → IsWords d
    → IsWords (diag_record d e.now_ms e.state e.err e.relay e.processed)
unfolding diag_record
diag_record-IsWords d e h = ground arith

-- One call on each counter.
counted_once :
    (d : Diagnostics) (e : Cycle)
    → IsWords d
    → let d' = diag_record d e.now_ms e.state e.err e.relay e.processed in
      (d'.sample_count ≡ u32 (d.sample_count + one_if (e.processed && true)))
      × (d'.sensor_error_count
          ≡ u32 (d.sensor_error_count + one_if (e.processed && is_sensor e.err)))
      × (d'.warmup_count ≡ u32 (d.warmup_count + one_if (e.processed && is_warmup e.err)))
      × (d'.fault_events
          ≡ u32 (
              d.fault_events
              + one_if (e.processed && (diag_is_fault_state e.state && not (was_fault d)))))
      × (was_fault d' ≡ (if e.processed then diag_is_fault_state e.state else was_fault d))
unfolding diag_record
counted_once d e h = ground arith

counted_all :
    (es : List Cycle) (d : Diagnostics)
    → IsWords d
    → let d' = diag_run d es in
      (d'.sample_count ≡ u32 (d.sample_count + count_if (λ e. true) es))
      × (d'.sensor_error_count ≡ u32 (d.sensor_error_count + count_if (λ e. is_sensor e.err) es))
      × (d'.warmup_count ≡ u32 (d.warmup_count + count_if (λ e. is_warmup e.err) es))
      × (d'.fault_events ≡ u32 (d.fault_events + edges (was_fault d) es))
unfolding diag_run
counted_all [] d h = omega arith
counted_all (e ∷ es) d h =
    let d' = diag_record d e.now_ms e.state e.err e.relay e.processed in
    let p = counted_once d e h in
    let q = counted_all es d' (diag_record-IsWords d e h) in
    let edge : (diag_run d' es).fault_events
        ≡ u32 (
            d'.fault_events
            + edges (if e.processed then diag_is_fault_state e.state else was_fault d) es) =
      rw p.4 at q.3 in
    (omega arith, omega arith, omega arith, omega arith)

-- After any cycles recorded from `diag_init` on, each counter is, modulo 2 ^ 32, the number of the
-- processed cycles that it counts, and `fault_events` is the number of times that they pass from a
-- state that is no fault to one that is.
pub diag_run_counts :
    (start : ℕ) (es : List Cycle)
    → let d = diag_run (diag_init start) es in
      (d.sample_count ≡ u32 (count_if (λ e. true) es))
      × (d.sensor_error_count ≡ u32 (count_if (λ e. is_sensor e.err) es))
      × (d.warmup_count ≡ u32 (count_if (λ e. is_warmup e.err) es))
      × (d.fault_events ≡ u32 (edges false es))
unfolding diag_init
diag_run_counts start es = let q = counted_all es (diag_init start) (omega arith) in omega arith
