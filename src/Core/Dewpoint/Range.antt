-- ===== src/Core/Dewpoint/Range.antt =====
-- `dewpoint_calc_cd` on a temperature in the sensor's range: it succeeds, no 32-bit step wraps, and
-- the result is the rounded Magnus formula, clamped.
use climate_node.Prelude.{
  ℕ, ◌+◌, ◌-◌, ◌≡◌, arith, ℤ, pos, pos_part, neg_part, ◌+ℤ◌, ◌-ℤ◌, ◌*ℤ◌, i32, i32_id, i32_pos,
  Within, +ℤ-Within, pos-*ℤ_parts, leb_ℤ, ltb_ℤ, false,
}
use climate_node.Core.Types.{Err, temp_cd_min, temp_cd_max}
use climate_node.Core.Dewpoint.{
  IsLnTable, a_q10, b_cd, clamp_dew, dew_of_alpha, dewpoint_calc_cd, ln_rh_q10, div_round_pos_den,
}
use climate_node.Core.Dewpoint.Round.{round_div, div_round-eq-round_div, round_div-Within}
use climate_node.Core.Dewpoint.Log.{ln_rh-Within}

-- The temperatures of the sensor's range.
abbrev pub InRange : ℤ → Type 0
InRange t = Within 4000 8500 t

-- The denominator `b + t` of the first quotient, in 0.01 degC.
abbrev pub first_denom : ℤ → ℕ
first_denom t = 23770 + pos_part t - neg_part t

first_denom_lem : (t : ℤ) → InRange t → i32 (b_cd +ℤ t) ≡ pos (first_denom t)
unfolding ◌+ℤ◌
first_denom_lem t h =
    let e : b_cd +ℤ t ≡ pos (first_denom t) = ground arith in rw e (i32_pos _ (omega arith))

-- The numerators and denominators of the two quotients stay far below 2 ^ 31.
first_quotient :
    (t : ℤ)
    → InRange t
    → div_round_pos_den (i32 (a_q10 *ℤ t)) (i32 (b_cd +ℤ t))
      ≡ round_div (a_q10 *ℤ t) (first_denom t)
first_quotient t h =
    let p = pos-*ℤ_parts 17684 t in
    rw (first_denom_lem t h, i32_id (a_q10 *ℤ t) (omega arith))
      (div_round-eq-round_div (a_q10 *ℤ t) (first_denom t) (omega arith) (omega arith)
        (omega arith))

pub first_quotient-Within :
    (t : ℤ) → InRange t → Within 3579 4659 (round_div (a_q10 *ℤ t) (first_denom t))
first_quotient-Within t h =
    let p = pos-*ℤ_parts 17684 t in
    round_div-Within (a_q10 *ℤ t) (first_denom t) 3579 4659 (ground arith) (ground arith)

abbrev pub second_denom : ℤ → ℕ
second_denom alpha = 17684 + neg_part alpha - pos_part alpha

abbrev pub IsAlpha : ℤ → Type 0
IsAlpha = Within 8295 4659

second_denom_lem : (a : ℤ) → IsAlpha a → i32 (a_q10 -ℤ a) ≡ pos (second_denom a)
unfolding ◌-ℤ◌
second_denom_lem a h =
    let e : a_q10 -ℤ a ≡ pos (second_denom a) = ground arith in rw e (i32_pos _ (omega arith))

second_quotient :
    (a : ℤ)
    → IsAlpha a
    → div_round_pos_den (i32 (b_cd *ℤ a)) (pos (second_denom a))
      ≡ round_div (b_cd *ℤ a) (second_denom a)
second_quotient a h =
    let p = pos-*ℤ_parts 23770 a in
    rw (i32_id (b_cd *ℤ a) (omega arith)) (
      div_round-eq-round_div (b_cd *ℤ a) (second_denom a) (omega arith) (omega arith) (omega arith))

dew_of_alpha-ok :
    (t a out : ℤ)
    → IsAlpha a
    → dew_of_alpha t a out ≡ (Err.ok, clamp_dew t (round_div (b_cd *ℤ a) (second_denom a)))
unfolding dew_of_alpha
dew_of_alpha-ok t a out h =
    let n : leb_ℤ (pos (second_denom a)) (pos 0) ≡ false = ground arith in
    rw (second_denom_lem a h, n, second_quotient a h)

module _ (table : ℕ → ℤ) where
  -- The Magnus formula over exact integers: each quotient rounded to the nearest.
  unfoldable pub exact_alpha : ℤ → ℕ → ℤ
  exact_alpha t rh = round_div (a_q10 *ℤ t) (first_denom t) +ℤ ln_rh_q10 table rh

  unfoldable pub magnus : ℤ → ℕ → ℤ
  magnus t rh = let a = exact_alpha t rh in clamp_dew t (round_div (b_cd *ℤ a) (second_denom a))

  module _ (ln : IsLnTable table) where
    pub exact_alpha-IsAlpha : (t : ℤ) (rh : ℕ) → InRange t → IsAlpha (exact_alpha t rh)
    unfolding exact_alpha
    exact_alpha-IsAlpha t rh h =
        +ℤ-Within 3579 4659 4716 0 _ _ (first_quotient-Within t h) (ln_rh-Within table ln rh)

    -- On a temperature of the sensor's range the calculation succeeds, whatever the humidity, and
    -- its result is the Magnus formula over exact integers: no 32-bit step wraps.
    pub dewpoint_calc-magnus :
        (t : ℤ) (rh : ℕ) (out : ℤ)
        → InRange t
        → dewpoint_calc_cd table t rh out ≡ (Err.ok, magnus t rh)
    unfolding dewpoint_calc_cd magnus
    dewpoint_calc-magnus t rh out h =
        let low : ltb_ℤ t temp_cd_min ≡ false = ground arith in
        let high : ltb_ℤ temp_cd_max t ≡ false = ground arith in
        let n : leb_ℤ (i32 (b_cd +ℤ t)) (pos 0) ≡ false = rw (first_denom_lem t h) (ground arith) in
        let e : i32 (exact_alpha t rh) ≡ exact_alpha t rh =
          let b = exact_alpha-IsAlpha t rh h in i32_id _ (omega arith) in
        rw (low, high, n, first_quotient t h)
          (unfold exact_alpha in
            rw e (dew_of_alpha-ok t (exact_alpha t rh) out (exact_alpha-IsAlpha t rh h)))
