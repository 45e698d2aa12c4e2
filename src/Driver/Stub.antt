-- ===== src/Driver/Stub.antt =====
-- src/driver/stub_sensor.c: the sensor of the microcontroller program. Its state is the static step
-- count, with the clock that `platform_millis` reads; the address of the sample is never null.
use climate_node.Prelude.{ℕ, ◌+◌, ◌*◌, ◌%◌, pos, ◌+ℤ◌, ◌-ℤ◌, u32}
use climate_node.Core.Types.{Err, Quality}
use climate_node.App.Node.{SensorRead}

pub record StubSensor : Type 0 where
  pub step : ℕ
  pub millis : ℕ

unfoldable pub stub_sensor_read : SensorRead StubSensor
stub_sensor_read d out = (
  Err.ok,
  record {
    temp_cd = pos 2250 +ℤ (pos (u32 (d.step * 7) % 21) -ℤ pos 10);
    rh_cp = 6500;
    timestamp_ms = d.millis;
    quality = Quality.valid;
  },
  record d { step = u32 (d.step + 1) },
)
