-- ===== src/Core/Controller/Boot.antt =====
-- Every controller that the program can reach: booted, updated with any samples, shut down by the
-- brown-out interrupt at any moment, and booted again.
use climate_node.Prelude.{ℕ, ◌≡◌, refl, some, false, Option, ℤ, arith}
use climate_node.Platform.{Board, platform_emergency_backup_save}
use climate_node.Core.Types.{ResetCause, Sample}
use climate_node.Core.Dewpoint.{IsLnTable}
use climate_node.Core.Controller.{
  ControllerConfig, Controller, boot_after, ctrl_init, ctrl_init_extended,
  ctrl_force_emergency_shutdown, controller_defaults, sane_config, sane_margins,
}
use climate_node.Core.Controller.Step.{ctrl_update}
use climate_node.Core.Controller.Safety.{
  IsSane, IsFailSafe, WellFormed, ctrl_init-WellFormed, ctrl_update-WellFormed,
}

pub boot_after-kept :
    (cause : ResetCause) (c : Controller) (b : Board)
    → ((boot_after cause c b).0.cfg ≡ c.cfg) × ((boot_after cause c b).0.filter ≡ c.filter)
unfolding boot_after
boot_after-kept cause c b = ground arith

boot_after-WellFormed :
    (cause : ResetCause) (c : Controller) (b : Board)
    → WellFormed c
    → c.relay_on ≡ c.cfg.relay_safe_state
    → c.power_is_dying ≡ false
    → WellFormed (boot_after cause c b).0
boot_after-WellFormed cause c b (seen, v) r p =
    let k = boot_after-kept cause c b in
    (
      seen,
      record {
        sane = rw k.0 v.sane;
        holds = rw k.1 v.holds;
        flags =
            unfold boot_after in
            record {
              relay_safe = ground arith;
              no_math_fault = ground arith;
              dying = ground arith;
            };
      },
    )

-- The crash count is free.
recrash :
    {c : Controller} (n : ℕ)
    → WellFormed c
    → c.power_is_dying ≡ false
    → WellFormed (record c { power_is_dying = false; watchdog_crash_counter = n })
recrash n (seen, v) p = (
  seen,
  record {
    sane = v.sane;
    holds = v.holds;
    flags = record {
      relay_safe = v.flags.relay_safe;
      no_math_fault = v.flags.no_math_fault;
      dying = λ q. absurd (ground arith);
    };
  },
)

-- A boot for any reason makes a well-formed controller, whatever was in the backup byte.
pub ctrl_init_extended-WellFormed :
    (given : Option ControllerConfig) (cause : ResetCause) (b : Board)
    → WellFormed (ctrl_init_extended given cause b).0
unfolding ctrl_init_extended
ctrl_init_extended-WellFormed given cause b =
    boot_after-WellFormed cause _ b
      (recrash b.backup (ctrl_init-WellFormed given) (unfold ctrl_init in refl))
      (unfold ctrl_init in refl) refl

-- It takes the configuration that it is given, and leaves the relay's output alone.
pub extended-cfg :
    (cause : ResetCause) (b : Board)
    → (ctrl_init_extended (some controller_defaults) cause b).0.cfg ≡ controller_defaults
unfolding ctrl_init_extended ctrl_init sane_config sane_margins
extended-cfg cause b = (boot_after-kept cause _ b).0

pub extended-relay :
    (given : Option ControllerConfig) (cause : ResetCause) (b : Board)
    → (ctrl_init_extended given cause b).1.relay ≡ b.relay
unfolding ctrl_init_extended boot_after platform_emergency_backup_save
extended-relay given ResetCause.watchdog b = ground arith
extended-relay given ResetCause.power_on b = refl
extended-relay given ResetCause.software b = refl
extended-relay given ResetCause.external b = refl
extended-relay given ResetCause.unknown b = refl

-- The brown-out interrupt keeps the controller well-formed.
pub shutdown-WellFormed :
    (c : Controller) (b : Board) → WellFormed c → WellFormed (ctrl_force_emergency_shutdown c b).0
unfolding ctrl_force_emergency_shutdown
shutdown-WellFormed c b (seen, v) = (
  seen,
  record {
    sane = v.sane;
    holds = v.holds;
    flags = record { relay_safe = λ q. refl; no_math_fault = ground arith; dying = λ q. refl };
  },
)

-- The controllers and boards that the program reaches.
pub data Reach (table : ℕ → ℤ) : Controller → Board → Type 0 where
  initialised : (given : Option ControllerConfig) (b : Board) → Reach table (ctrl_init given) b
  booted :
      (given : Option ControllerConfig) (cause : ResetCause) (b : Board)
      → Reach table (ctrl_init_extended given cause b).0 (ctrl_init_extended given cause b).1
  sampled :
      {c : Controller} {b : Board} (s : Sample)
      → Reach table c b
      → Reach table (ctrl_update table c s b).1 (ctrl_update table c s b).2
  dying :
      {c : Controller} {b : Board}
      → Reach table c b
      → Reach table (ctrl_force_emergency_shutdown c b).0 (ctrl_force_emergency_shutdown c b).1

pub Reach-WellFormed :
    {table : ℕ → ℤ} {c : Controller} {b : Board} → IsLnTable table → Reach table c b → WellFormed c
Reach-WellFormed ln (initialised given b) = ctrl_init-WellFormed given
Reach-WellFormed ln (booted given cause b) = ctrl_init_extended-WellFormed given cause b
Reach-WellFormed {table} ln (sampled {c} {b} s r) =
    ctrl_update-WellFormed table ln c s b (Reach-WellFormed ln r)
Reach-WellFormed ln (dying {c} {b} r) = shutdown-WellFormed c b (Reach-WellFormed ln r)

-- In every reachable state: the relay is in its safe state unless the automaton is in RUN, the
-- thresholds leave a hysteresis band, MATH_FAULT is not entered, and failing power means SAFE.
pub Reach-IsFailSafe :
    {table : ℕ → ℤ} {c : Controller} {b : Board}
    → IsLnTable table
    → Reach table c b
    → IsFailSafe c × IsSane c.cfg
Reach-IsFailSafe ln r = let (seen, v) = Reach-WellFormed ln r in (v.flags, v.sane)
