-- ===== src/Driver/Sht31/Laws.antt =====
-- What a measurement of the SHT31 gives, on every answer of the bus.
use climate_node.Prelude.{
  ℕ, ◌*◌, ◌/◌, ◌^◌, ◌<◌, ◌≡◌, ◌≢◌, ◌⊎◌, refl, inl, inr, arith, true, false, Bool-cases, sub_ℕ, ◌≤ℤ◌,
  ◌<ℤ◌, ◌+ℤ◌, ◌*ℤ◌, ◌/ℤ◌, i32,
}
use climate_node.Core.Types.{Err, Quality, Sample, temp_cd_min, temp_cd_max}
use climate_node.Core.Controller.{sample_is_valid}
use climate_node.Service.Storage.Persist.{is_ok}
use climate_node.Driver.I2c.{I2cOps}
use climate_node.Driver.Sht31.{
  raw_at, temp_of_raw, rh_of_raw, sht31_addr_default, sht31_cmd, sht31_convert, sht31_read_sample,
}

-- Nothing wraps: the conversions are those of the data sheet over exact integers.
pub temp_of_raw_lem : (st : ℕ) → st < 2 ^ 16 → temp_of_raw st ≡ sub_ℕ (17500 * st / 65535) 4500
unfolding temp_of_raw ◌+ℤ◌ ◌*ℤ◌ ◌/ℤ◌ i32
temp_of_raw_lem st h = ground arith

pub rh_of_raw_lem : (srh : ℕ) → srh < 2 ^ 16 → rh_of_raw srh ≡ 10000 * srh / 65535
unfolding rh_of_raw
rh_of_raw_lem srh h = ground arith

-- A sample out of range, or one that the controller takes, its values those of the data sheet.
abbrev pub Converted : ℕ → ℕ → Sample → Err → Sample → Type 0
Converted st srh out e s =
    let temp = sub_ℕ (17500 * st / 65535) 4500 in
    ((e ≡ Err.ok)
      × (temp_cd_min ≤ℤ temp)
      × (temp ≤ℤ temp_cd_max)
      × (s.temp_cd ≡ temp)
      × (s.rh_cp ≡ 10000 * srh / 65535)
      × (s.quality ≡ Quality.valid)
      × (sample_is_valid s ≡ true))
    ⊎ ((e ≡ Err.out_of_range)
        × ((temp <ℤ temp_cd_min) ⊎ (temp_cd_max <ℤ temp))
        × (s ≡ record out { quality = Quality.fault }))

convert-Converted :
    (st srh : ℕ) (out : Sample)
    → st < 2 ^ 16
    → srh < 2 ^ 16
    → let (e, s) = sht31_convert st srh out in Converted st srh out e s
unfolding sht31_convert sample_is_valid
convert-Converted st srh out h k = rw (temp_of_raw_lem st h, rh_of_raw_lem srh k) (ground arith)

is_ok-ok : (e : Err) → is_ok e ≡ true → e ≡ Err.ok
is_ok-ok e h = ground arith

not_ok : (e : Err) → is_ok e ≡ false → e ≢ Err.ok
not_ok e h = ground arith

-- A measurement whose command or answer fails on the bus gives the bus's error and a faulty sample. Any
-- other gives, with no overflow, the data sheet's values of the two raw numbers as a sample that the
-- controller takes, or ERR_OUT_OF_RANGE and a faulty sample, for a temperature out of range alone.
pub sht31_read_lem :
    {B : Type 0} (ops : I2cOps B) (bus : B) (out : Sample)
    → let (we, sent) = ops.mem_write sht31_addr_default 0 sht31_cmd bus in
      let (re, buf, done) = ops.mem_read sht31_addr_default 0 6 sent in
      let (e, s, bus') = sht31_read_sample ops bus out in
      ((we ≢ Err.ok) × (e ≡ we) × (s ≡ record out { quality = Quality.fault }) × (bus' ≡ sent))
      ⊎ (((we ≡ Err.ok)
            × (re ≢ Err.ok)
            × (e ≡ re)
            × (s ≡ record out { quality = Quality.fault })
            × (bus' ≡ done))
          ⊎ ((we ≡ Err.ok)
              × (re ≡ Err.ok)
              × (bus' ≡ done)
              × Converted (raw_at buf 0) (raw_at buf 3) out e s))
unfolding sht31_read_sample
sht31_read_lem ops bus out =
    let (we, sent) = ops.mem_write sht31_addr_default 0 sht31_cmd bus in
    let (re, buf, done) = ops.mem_read sht31_addr_default 0 6 sent in
    elim (Bool-cases (is_ok we)) [
      | inr bad ↦ rw bad (inl (not_ok we bad, refl, refl, refl))
      | inl fine ↦ elim (Bool-cases (is_ok re)) [
        | inr bad ↦ rw (fine, bad) (inr (inl (is_ok-ok we fine, not_ok re bad, refl, refl, refl)))
        | inl read ↦
            rw (fine, read)
              (inr (
                inr (
                  is_ok-ok we fine,
                  is_ok-ok re read,
                  refl,
                  convert-Converted (raw_at buf 0) (raw_at buf 3) out (omega arith) (omega arith),
                )))
      ]
    ]
