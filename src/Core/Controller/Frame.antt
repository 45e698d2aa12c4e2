-- ===== src/Core/Controller/Frame.antt =====
-- What a control cycle leaves alone: the configuration, and the relay output, which the caller drives.
use climate_node.Prelude.{
  ℕ, ℤ, ◌≡◌, refl, arith, inl, inr, Bool-cases, u8, u32, ◌+◌, ltb, not, ◌||◌,
}
use climate_node.Platform.{Board}
use climate_node.Core.Types.{Err, Sample}
use climate_node.Core.Controller.{Controller, ctrl_set_relay, sample_is_valid}
use climate_node.Core.Controller.Step.{
  Outcome, is_safe, needs_recovery, on_invalid, on_math_fault, decide_relay, clear_crashes,
  after_dewpoint, after_filter, measure, on_valid, ctrl_update,
}

abbrev pub IsFrame : Controller → Board → Outcome → Type 0
IsFrame c b out = (out.1.cfg ≡ c.cfg) × (out.2.relay ≡ b.relay)

fault-IsFrame : (e : Err) (c : Controller) (b : Board) → IsFrame c b (on_math_fault e c b)
unfolding on_math_fault
fault-IsFrame e c b = (refl, refl)

dewpoint-IsFrame : (e : Err) (c : Controller) (b : Board) → IsFrame c b (after_dewpoint e c b)
unfolding after_dewpoint decide_relay clear_crashes on_math_fault
dewpoint-IsFrame e c b = ground arith

invalid-IsFrame : (c : Controller) (b : Board) → IsFrame c b (on_invalid c b)
unfolding on_invalid
invalid-IsFrame c b = ground arith

module _ (table : ℕ → ℤ) where
  filter-IsFrame : (e : Err) (c : Controller) (b : Board) → IsFrame c b (after_filter table e c b)
  unfolding after_filter ctrl_set_relay
  filter-IsFrame Err.ok c b = dewpoint-IsFrame _ (record c { dew_point_cd = _ }) b
  filter-IsFrame Err.warmup c b = (refl, refl)
  filter-IsFrame e c b = fault-IsFrame e c b

  measure-IsFrame : (c : Controller) (s : Sample) (b : Board) → IsFrame c b (measure table c s b)
  unfolding measure
  measure-IsFrame c s b = filter-IsFrame _ _ b

  valid-IsFrame : (c : Controller) (s : Sample) (b : Board) → IsFrame c b (on_valid table c s b)
  unfolding on_valid
  valid-IsFrame c s b = elim (Bool-cases (needs_recovery c.state)) [
    | inr e ↦ rw e (measure-IsFrame c s b)
    | inl e ↦ elim (Bool-cases (ltb (u8 (c.sensor_ok_streak + 1)) c.cfg.recovery_threshold)) [
      | inl k ↦ rw (e, k) (refl, refl)
      | inr k ↦
          rw (e, k)
            (measure-IsFrame (record c { sensor_ok_streak = u8 (c.sensor_ok_streak + 1) }) s b)
    ]
  ]

  pub ctrl_update-IsFrame :
      (c : Controller) (s : Sample) (b : Board) → IsFrame c b (ctrl_update table c s b)
  unfolding ctrl_update ctrl_set_relay
  ctrl_update-IsFrame c s b = elim (Bool-cases (is_safe c.state || c.power_is_dying)) [
    | inl e ↦ rw e (refl, refl)
    | inr e ↦ elim (Bool-cases (not (sample_is_valid s))) [
      | inl k ↦ rw (e, k) (invalid-IsFrame (record c { sample_count = u32 (c.sample_count + 1) }) b)
      | inr k ↦
          rw (e, k)
            (valid-IsFrame
              (record c { sample_count = u32 (c.sample_count + 1); sensor_error_streak = 0 }) s b)
    ]
  ]
