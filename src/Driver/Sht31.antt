-- ===== src/Driver/Sht31.antt =====
-- src/driver/sensor_sht31.c: one measurement over the I2C bus, which is a parameter. The address of the
-- sample is never null.
pub mod Laws
use climate_node.Prelude.{
  ℕ, ◌+◌, ◌*◌, ◌/◌, ◌%◌, ◌^◌, Bool, true, false, not, ◌||◌, List, [], ◌∷◌, ℤ, pos, negsuc, ◌+ℤ◌,
  ◌*ℤ◌, ◌/ℤ◌, i32, u16, u32, shl, ltb, ltb_ℤ, if◌then◌else◌, get_or,
}
use Prim.Native.Nat.{bit_or}
use climate_node.Core.Types.{Err, Quality, Sample, temp_cd_min, temp_cd_max, rh_cp_max}
use climate_node.Service.Storage.Persist.{is_ok}
use climate_node.App.Node.{SensorRead}
use climate_node.Driver.I2c.{I2cOps}

abbrev pub sht31_addr_default : ℕ
sht31_addr_default = 0x44

abbrev pub sht31_cmd : List ℕ
sht31_cmd = 0x2c ∷ 0x06 ∷ []

-- Two bytes of the answer, the high one first.
abbrev pub raw_at : List ℕ → ℕ → ℕ
raw_at buf i = u16 (bit_or (shl (get_or buf i 0) 8) (get_or buf (i + 1) 0))

unfoldable pub temp_of_raw : ℕ → ℤ
temp_of_raw st_raw = i32 (negsuc 4499 +ℤ i32 (i32 (pos 17500 *ℤ pos st_raw) /ℤ pos 65535))

unfoldable pub rh_of_raw : ℕ → ℕ
rh_of_raw srh_raw = u32 (10000 * srh_raw) / 65535

-- The validation and the result, from the two raw values.
unfoldable pub sht31_convert : ℕ → ℕ → Sample → Err × Sample
sht31_convert st_raw srh_raw out =
    let temp_cd_calc = temp_of_raw st_raw in
    let rh_cp_calc = rh_of_raw srh_raw in
    if ltb_ℤ temp_cd_calc temp_cd_min || ltb_ℤ temp_cd_max temp_cd_calc
    then (Err.out_of_range, record out { quality = Quality.fault })
    else if ltb rh_cp_max rh_cp_calc
    then (Err.out_of_range, record out { quality = Quality.fault })
    else (
      Err.ok,
      record {
        temp_cd = temp_cd_calc;
        rh_cp = rh_cp_calc;
        timestamp_ms = 0;
        quality = Quality.valid;
      },
    )

unfoldable pub sht31_read_sample : {B : Type 0} → I2cOps B → SensorRead B
sht31_read_sample ops bus out =
    let (e, bus') = ops.mem_write sht31_addr_default 0 sht31_cmd bus in
    if not (is_ok e)
    then (e, record out { quality = Quality.fault }, bus')
    else let (e', buf, bus'') = ops.mem_read sht31_addr_default 0 6 bus' in
      if not (is_ok e')
      then (e', record out { quality = Quality.fault }, bus'')
      else let (e'', s) = sht31_convert (raw_at buf 0) (raw_at buf 3) out in (e'', s, bus'')
