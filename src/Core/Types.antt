-- ===== src/Core/Types.antt =====
-- include/core/types.h and include/core/errors.h: the sample, its quality, the reset causes and the
-- error codes. `temp_cd_t` is `int32_t`, an integer; `rh_cp_t` and `time_ms_t` are `uint32_t`.
use Prim.Native.String.{String}
use climate_node.Prelude.{ℕ, ℤ, pos, negsuc}

pub data Err : Type 0 where
  ok invalid_arg out_of_range not_ready warmup sensor math state comm storage config hw : Err
  not_found : Err

pub data Quality : Type 0 where
  invalid warmup valid fault : Quality

pub data ResetCause : Type 0 where
  power_on watchdog software external unknown : ResetCause

pub record Sample : Type 0 where
  pub temp_cd : ℤ
  pub rh_cp : ℕ
  pub timestamp_ms : ℕ
  pub quality : Quality

abbrev pub temp_cd_min : ℤ
temp_cd_min = negsuc 3999

abbrev pub temp_cd_max : ℤ
temp_cd_max = pos 8500

abbrev pub rh_cp_max : ℕ
rh_cp_max = 10000

unfoldable pub err_str : Err → String
err_str Err.ok = "OK"
err_str Err.invalid_arg = "INVALID_ARG"
err_str Err.out_of_range = "OUT_OF_RANGE"
err_str Err.not_ready = "NOT_READY"
err_str Err.warmup = "WARMUP"
err_str Err.sensor = "SENSOR"
err_str Err.math = "MATH"
err_str Err.state = "STATE"
err_str Err.comm = "COMM"
err_str Err.storage = "STORAGE"
err_str Err.config = "CONFIG"
err_str Err.hw = "HW"
err_str Err.not_found = "NOT_FOUND"
