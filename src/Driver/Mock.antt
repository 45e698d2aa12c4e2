-- ===== src/Driver/Mock.antt =====
-- src/driver/mock_sensor.c: the sensor of the host program. Its state `mock_sensor_t` is the step; the
-- addresses are never null.
use climate_node.Prelude.{
  ℕ, zero, suc, ◌↔◌, ◌≤ℤ◌, ◌+◌, ◌*◌, ◌%◌, ◌^◌, ◌≤◌, ◌<◌, ◌≡◌, refl, arith, false, ◌&&◌, ℤ, pos,
  ◌+ℤ◌, ◌-ℤ◌, u32, shr, ltb, leb, if◌then◌else◌,
}
use Prim.Native.Nat.{bit_xor}
use climate_node.Core.Types.{Err, Quality, Sample}
use climate_node.Core.Controller.{sample_is_valid}
use climate_node.App.Node.{SensorRead, zero_sample}

unfoldable pub mock_sensor_init : ℕ → ℕ
mock_sensor_init step = 0

-- The pseudo-random noise, from -50 to 50.
unfoldable pub mock_noise : ℕ → ℤ
mock_noise step =
    let x = u32 (u32 (step * 1103515245) + 12345) in pos (bit_xor x (shr x 16) % 101) -ℤ pos 50

unfoldable pub mock_sensor_read : SensorRead ℕ
mock_sensor_read step out = (
  Err.ok,
  record {
    temp_cd = pos 2250 +ℤ mock_noise step;
    rh_cp = 6500;
    timestamp_ms = 0;
    quality = if leb 20 step && ltb step 25 then Quality.invalid else Quality.valid;
  },
  u32 (step + 1),
)

noise_range :
    (step : ℕ)
    → (pos 2200 ≤ℤ pos 2250 +ℤ mock_noise step) × (pos 2250 +ℤ mock_noise step ≤ℤ pos 2300)
unfolding mock_noise ◌+ℤ◌ ◌-ℤ◌
noise_range step =
    let x = u32 (u32 (step * 1103515245) + 12345) in ground (arith, bit_xor x (shr x 16))

-- The state after `n` reads from a start.
abbrev pub mock_after : ℕ → ℕ
mock_after zero = mock_sensor_init 0
mock_after (suc n) = (mock_sensor_read (mock_after n) zero_sample).2

mock_after_lem : (n : ℕ) → mock_after n ≡ n % 2 ^ 32
unfolding mock_sensor_init mock_sensor_read
mock_after_lem zero = refl
mock_after_lem (suc n) = omega (arith, mock_after_lem n)

-- Of the first 2 ^ 32 reads after the start exactly those numbered 20 to 24 give a sample that the
-- controller refuses; every read succeeds with a temperature from 22.00 to 23.00 degrees.
pub mock_run_lem :
    (n : ℕ) (out : Sample)
    → n < 2 ^ 32
    → let (e, s, next) = mock_sensor_read (mock_after n) out in
      (e ≡ Err.ok)
      × (pos 2200 ≤ℤ s.temp_cd)
      × (s.temp_cd ≤ℤ pos 2300)
      × ((sample_is_valid s ≡ false) ↔ ((20 ≤ n) × (n ≤ 24)))
unfolding mock_sensor_read sample_is_valid
mock_run_lem n out h =
    let at_n : mock_after n ≡ n = omega (arith, mock_after_lem n) in
    let (low, high) = noise_range n in rw at_n (refl, low, high, ground arith)
