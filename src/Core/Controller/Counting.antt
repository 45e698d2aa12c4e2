-- ===== src/Core/Controller/Counting.antt =====
-- Every awake state that the program reaches recovers: the count of valid samples stays below the number
-- that ends a fault.
use climate_node.Prelude.{
  ℕ, ◌+◌, ◌≤◌, ◌<◌, ◌≡◌, ap, inl, inr, arith, ℤ, List, length, ltb, u8, u32, ◌||◌, Bool-cases,
}
use climate_node.Core.Types.{ResetCause, Sample}
use climate_node.Core.Dewpoint.{IsLnTable}
use climate_node.Platform.{Board}
use climate_node.Core.Controller.{
  CtrlState, Controller, boot_after, ctrl_init, ctrl_init_extended, ctrl_force_emergency_shutdown,
  sample_is_valid, ctrl_set_relay, or_defaults,
}
use climate_node.Core.Controller.Step.{
  is_safe, needs_recovery, measure, after_filter, after_dewpoint, decide_relay, clear_crashes,
  on_math_fault, on_invalid, on_valid, ctrl_update,
}
use climate_node.Core.Controller.Safety.{IsSane, sane_config-IsSane}
use climate_node.Core.Controller.Boot.{Reach, Reach-IsFailSafe, Reach-WellFormed}
use climate_node.Core.Controller.Faults.{AllValid, IsAwake, ctrl_run}
use climate_node.Core.Controller.Recovery.{recovery_reaches_run}

-- Fewer valid samples are counted than end a fault.
abbrev IsCounting : Controller → Type 0
IsCounting c = c.sensor_ok_streak < c.cfg.recovery_threshold

module _ (table : ℕ → ℤ) where
  measure-kept :
      (c : Controller) (s : Sample) (b : Board)
      → let c' = (measure table c s b).1 in (c'.cfg ≡ c.cfg) × (c'.sensor_ok_streak ≡ 0)
  unfolding measure after_filter after_dewpoint decide_relay clear_crashes on_math_fault
  measure-kept c s b = ground arith

  measure-IsCounting :
      (c : Controller) (s : Sample) (b : Board) → IsSane c.cfg → IsCounting (measure table c s b).1
  measure-IsCounting c s b sane =
      let (cfg, streak) = measure-kept c s b in
      omega (arith, ap (λ k. k.recovery_threshold) cfg, streak, sane.recoveries)

  valid-IsCounting :
      (c : Controller) (s : Sample) (b : Board)
      → IsSane c.cfg
      → IsCounting c
      → IsCounting (on_valid table c s b).1
  unfolding on_valid
  valid-IsCounting c s b sane h = elim (Bool-cases (needs_recovery c.state)) [
    | inr calm ↦ rw calm (measure-IsCounting c s b sane)
    | inl fault ↦
        let d = record c { sensor_ok_streak = u8 (c.sensor_ok_streak + 1) } in
        elim (Bool-cases (ltb d.sensor_ok_streak c.cfg.recovery_threshold)) [
          | inl more ↦ rw (fault, more) (ground (arith, more))
          | inr last ↦ rw (fault, last) (measure-IsCounting d s b sane)
        ]
  ]

  update-IsCounting :
      (c : Controller) (s : Sample) (b : Board)
      → IsSane c.cfg
      → IsCounting c
      → IsCounting (ctrl_update table c s b).1
  unfolding ctrl_update on_invalid ctrl_set_relay
  update-IsCounting c s b sane h = elim (Bool-cases (is_safe c.state || c.power_is_dying)) [
    | inl stop ↦ rw stop h
    | inr go ↦
        let d = record c { sample_count = u32 (c.sample_count + 1) } in
        elim (Bool-cases (sample_is_valid s)) [
          | inl good ↦
              rw (go, good) (valid-IsCounting (record d { sensor_error_streak = 0 }) s b sane h)
          | inr bad ↦ rw (go, bad) (ground (arith, sane.recoveries))
        ]
  ]

boot_after-IsCounting :
    (cause : ResetCause) (c : Controller) (b : Board)
    → IsCounting c
    → IsCounting (boot_after cause c b).0
unfolding boot_after
boot_after-IsCounting cause c b h = ground arith

Reach-IsCounting :
    {table : ℕ → ℤ} {c : Controller} {b : Board} → IsLnTable table → Reach table c b → IsCounting c
unfolding ctrl_init ctrl_init_extended ctrl_force_emergency_shutdown
Reach-IsCounting ln (Reach.initialised given b) =
    (sane_config-IsSane (or_defaults given)).recoveries
Reach-IsCounting ln (Reach.booted given cause b) =
    boot_after-IsCounting cause _ b (sane_config-IsSane (or_defaults given)).recoveries
Reach-IsCounting {table} ln (Reach.sampled {c} {b} s r) =
    update-IsCounting table c s b (Reach-IsFailSafe ln r).1 (Reach-IsCounting ln r)
Reach-IsCounting ln (Reach.dying {c} {b} r) = Reach-IsCounting ln r

-- From every state that the program reaches, except SAFE and dying power, a run of valid samples that
-- is four longer than the recovery threshold (a byte), or more, ends in RUN.
pub Reach-recovers :
    {table : ℕ → ℤ} {c : Controller} {b : Board} (ss : List Sample)
    → IsLnTable table
    → Reach table c b
    → IsAwake c
    → c.cfg.recovery_threshold < 256
    → AllValid ss
    → c.cfg.recovery_threshold + 4 ≤ length ss
    → (ctrl_run table c ss b).0.state ≡ CtrlState.run
Reach-recovers {table} {c} {b} ss ln r a small g enough =
    let (seen, v) = Reach-WellFormed ln r in
    recovery_reaches_run table ln c ss b v a (Reach-IsCounting ln r) small g enough
