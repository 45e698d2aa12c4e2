-- ===== src/Core/Dewpoint.antt =====
-- src/core/dewpoint.c: the dew point by the Magnus formula in Q10 integer arithmetic.
-- The table `dewpoint_ln_rh_q10` is generated by the build (tools/gen_dewpoint_lut.py) and is a
-- parameter. `*out_dew_cd` is given as it was before the call and returned as it is after it.
pub mod Round
pub mod Log
pub mod Range
pub mod Laws
use climate_node.Prelude.{
  ℕ, suc, ◌+◌, ◌*◌, ◌/◌, ◌%◌, ◌≤◌, ◌<◌, ◌≡◌, ℤ, pos, negsuc, ◌+ℤ◌, ◌-ℤ◌, ◌*ℤ◌, ◌/ℤ◌, ◌≤ℤ◌, ltb_ℤ,
  leb_ℤ, i32, Within, u32, ltb, if◌then◌else◌,
}
use climate_node.Core.Types.{Err, temp_cd_min, temp_cd_max, rh_cp_max}

abbrev pub a_q10 : ℤ
a_q10 = pos 17684

abbrev pub b_cd : ℤ
b_cd = pos 23770

-- What the generated table is relied on for: rounded values of 1024 * ln (p / 100) for the percents
-- from 1 to 100, rising to 0.
pub record IsLnTable (table : ℕ → ℤ) : Type 0 where
  pub ranged : (p : ℕ) → 0 < p → p ≤ 100 → Within 4716 0 (table p)
  pub rising : (p : ℕ) → 0 < p → p < 100 → table p ≤ℤ table (p + 1)

-- `div_round_pos_den`
unfoldable pub div_round_pos_den : ℤ → ℤ → ℤ
div_round_pos_den numerator denominator =
    if leb_ℤ (pos 0) numerator
    then i32 (i32 (numerator +ℤ i32 (denominator /ℤ pos 2)) /ℤ denominator)
    else i32
        (pos 0 -ℤ i32 (i32 (i32 (pos 0 -ℤ numerator) +ℤ i32 (denominator /ℤ pos 2)) /ℤ denominator))

-- The clamp at the head of `ln_rh_q10`.
unfoldable pub clamp_rh : ℕ → ℕ
clamp_rh rh =
    let local_rh = if ltb rh 100 then 100 else rh in
    if ltb rh_cp_max local_rh then rh_cp_max else local_rh

-- The interpolation between two entries of the table.
unfoldable pub interpolate : ℤ → ℤ → ℕ → ℤ
interpolate y0 y1 frac = i32 (y0 +ℤ i32 (i32 (i32 (y1 -ℤ y0) *ℤ pos frac) /ℤ pos 100))

-- The clamps at the end of `dewpoint_calc_cd`.
unfoldable pub clamp_dew : ℤ → ℤ → ℤ
clamp_dew temp dew =
    let dew' = if ltb_ℤ temp dew then temp else dew in
    let dew'' = if ltb_ℤ dew' temp_cd_min then temp_cd_min else dew' in
    if ltb_ℤ temp_cd_max dew'' then temp_cd_max else dew''

-- From the first quotient on.
unfoldable pub dew_of_alpha : ℤ → ℤ → ℤ → Err × ℤ
dew_of_alpha temp alpha out =
    let denom_q10 = i32 (a_q10 -ℤ alpha) in
    if leb_ℤ denom_q10 (pos 0)
    then (Err.math, out)
    else (Err.ok, clamp_dew temp (div_round_pos_den (i32 (b_cd *ℤ alpha)) denom_q10))

module _ (table : ℕ → ℤ) where
  unfoldable pub ln_rh_q10 : ℕ → ℤ
  ln_rh_q10 rh =
      let local_rh = clamp_rh rh in
      let percent = local_rh / 100 in
      let frac = local_rh % 100 in
      let y0 = table percent in
      let y1 = if ltb percent 100 then table (percent + 1) else y0 in interpolate y0 y1 frac

  unfoldable pub dewpoint_calc_cd : ℤ → ℕ → ℤ → Err × ℤ
  dewpoint_calc_cd temp rh out =
      let denom_t = i32 (b_cd +ℤ temp) in
      let term1_q10 = div_round_pos_den (i32 (a_q10 *ℤ temp)) denom_t in
      if ltb_ℤ temp temp_cd_min
      then (Err.out_of_range, out)
      else if ltb_ℤ temp_cd_max temp
      then (Err.out_of_range, out)
      else if leb_ℤ denom_t (pos 0)
      then (Err.math, out)
      else dew_of_alpha temp (i32 (term1_q10 +ℤ ln_rh_q10 rh)) out
