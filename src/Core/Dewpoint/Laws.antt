-- ===== src/Core/Dewpoint/Laws.antt =====
-- What a caller may rely on: the range of the dew point, its order in the humidity, the errors.
use climate_node.Prelude.{
  ℕ, zero, suc, ◌+◌, ◌-◌, ◌*◌, ◌/◌, ◌≤◌, ◌<◌, ◌≡◌, refl, ◌∙◌, sym, ap, arith, ℤ, pos, negsuc,
  pos_part, neg_part, ◌*ℤ◌, ◌≤ℤ◌, ◌<ℤ◌, +ℤ_parts, pos-*ℤ_parts, ◌⊎◌, inl, inr,
}
use native.Mathlib.Decide.{dec_lt}
use native.Mathlib.Nat.{div-mul-le_self, div-eq_of_lt, le-div_iff_mul-le}
use climate_node.Core.Types.{Err, temp_cd_min, temp_cd_max}
use climate_node.Core.Dewpoint.{IsLnTable, a_q10, b_cd, ln_rh_q10, clamp_dew, dewpoint_calc_cd}
use climate_node.Core.Dewpoint.Round.{round_div}
use climate_node.Core.Dewpoint.Log.{ln_rh_mono}
use climate_node.Core.Dewpoint.Range.{
  InRange, IsAlpha, first_denom, second_denom, exact_alpha, exact_alpha-IsAlpha, magnus,
  dewpoint_calc-magnus,
}

-- A quotient of halves: `2 * n` against `2 * k + d`.
half_bound : (n k d : ℕ) → 2 * n ≤ 2 * k + d → n ≤ k + d / 2
half_bound n k d h = omega arith

round_le :
    (k k' d d' : ℕ)
    → 0 < d'
    → ((q : ℕ) → (2 * q + 1) * d ≤ 2 * k → (2 * q + 1) * d' ≤ 2 * k')
    → (k + d / 2) / d ≤ (k' + d' / 2) / d'
round_le k k' d d' p keep = go ((k + d / 2) / d) (div-mul-le_self (k + d / 2) d)
  where
    go : (r : ℕ) → r * d ≤ k + d / 2 → r ≤ (k' + d' / 2) / d'
    go zero h = omega arith
    go (suc q) h =
        let a : (2 * q + 1) * d ≤ 2 * k = grind arith in
        let b = keep q a in
        let c : suc q * d' ≤ k' + d' / 2 = half_bound (suc q * d') k' d' (grind arith) in
        (le-div_iff_mul-le p).1 c

round_div_parts :
    (z : ℤ) (m : ℕ)
    → 0 < m
    → (pos_part (round_div z m) ≡ (pos_part z + m / 2) / m)
      × (neg_part (round_div z m) ≡ (neg_part z + m / 2) / m)
unfolding round_div
round_div_parts (pos a) m p =
    let none : (0 + m / 2) / m ≡ 0 = div-eq_of_lt (omega arith) in (refl, sym none)
round_div_parts (negsuc a) m p =
    let none : (0 + m / 2) / m ≡ 0 = div-eq_of_lt (omega arith) in ground arith

-- Both parts of the second quotient grow with those of `alpha`.
pos_grows :
    (x y d e : ℕ) → x ≤ y → e ≤ d → 0 < e → (23770 * x + d / 2) / d ≤ (23770 * y + e / 2) / e
pos_grows x y d e h k p = round_le (23770 * x) (23770 * y) d e p (λ q a. grind arith)

neg_step :
    (x k q : ℕ)
    → (2 * q + 1) * (17684 + x) ≤ 2 * (23770 * x)
    → (2 * q + 1) * (17684 + (x + k)) ≤ 2 * (23770 * (x + k))
neg_step x k q a =
    let small : 2 * q + 1 ≤ 47540 = elim (dec_lt 47540 (2 * q + 1)) [
      | yes l ↦
          let m : 47541 * (17684 + x) ≤ (2 * q + 1) * (17684 + x) = grind arith in
          absurd (omega arith)
      | no l ↦ omega arith
    ] in
    let more : (2 * q + 1) * k ≤ 47540 * k = grind arith in omega arith

neg_grows :
    (x y : ℕ)
    → x ≤ y
    → (23770 * x + (17684 + x) / 2) / (17684 + x) ≤ (23770 * y + (17684 + y) / 2) / (17684 + y)
neg_grows x y h =
    let e : x + (y - x) ≡ y = omega arith in
    round_le (23770 * x) (23770 * y) (17684 + x) (17684 + y) (omega arith)
      (λ q a. rw e at (neg_step x (y - x) q a))

-- The second quotient, and its two parts.
abbrev quotient : ℤ → ℤ
quotient a = round_div (b_cd *ℤ a) (second_denom a)

abbrev part : ℕ → ℕ → ℕ
part x d = (23770 * x + d / 2) / d

quotient_parts :
    (a : ℤ)
    → IsAlpha a
    → (pos_part (quotient a) ≡ part (pos_part a) (second_denom a))
      × (neg_part (quotient a) ≡ part (neg_part a) (second_denom a))
quotient_parts a h =
    let p = pos-*ℤ_parts 23770 a in
    let r = round_div_parts (b_cd *ℤ a) (second_denom a) (omega arith) in
    (
      r.0 ∙ ap (λ t. (t + second_denom a / 2) / second_denom a) p.0,
      r.1 ∙ ap (λ t. (t + second_denom a / 2) / second_denom a) p.1,
    )

sub-zero : (n : ℕ) → n - 0 ≡ n
sub-zero n = omega arith

neg_part_falls :
    (a b : ℤ)
    → a ≤ℤ b
    → IsAlpha a
    → IsAlpha b
    → part (neg_part b) (second_denom b) ≤ part (neg_part a) (second_denom a)
neg_part_falls a (pos y) l h k =
    let none : part 0 (17684 - y) ≡ 0 = div-eq_of_lt (omega arith) in rw none (omega arith)
neg_part_falls (pos x) (negsuc y) l h k = absurd (omega arith)
neg_part_falls (negsuc x) (negsuc y) l h k =
    rw (sub-zero (17684 + suc y), sub-zero (17684 + suc x))
      (neg_grows (suc y) (suc x) (omega arith))

quotient_mono : (a b : ℤ) → IsAlpha a → IsAlpha b → a ≤ℤ b → quotient a ≤ℤ quotient b
quotient_mono a b h k l =
    let pa = quotient_parts a h in
    let pb = quotient_parts b k in
    let up =
      pos_grows (pos_part a) (pos_part b) (second_denom a) (second_denom b) (ground arith)
        (ground arith) (omega arith) in
    let down = neg_part_falls a b l h k in omega arith

clamp_dew_mono : (t a b : ℤ) → a ≤ℤ b → clamp_dew t a ≤ℤ clamp_dew t b
unfolding clamp_dew
clamp_dew_mono t a b h = ground arith

clamp_dew_bounds : (t a : ℤ) → InRange t → (clamp_dew t a ≤ℤ t) × (temp_cd_min ≤ℤ clamp_dew t a)
unfolding clamp_dew
clamp_dew_bounds t a h = ground arith

exact_alpha_mono :
    (table : ℕ → ℤ) (ln : IsLnTable table) (t : ℤ) (r s : ℕ)
    → r ≤ s
    → exact_alpha table t r ≤ℤ exact_alpha table t s
unfolding exact_alpha
exact_alpha_mono table ln t r s h =
    let m = ln_rh_mono table ln r s h in
    let q = round_div (a_q10 *ℤ t) (first_denom t) in
    omega (arith, +ℤ_parts q (ln_rh_q10 table r), +ℤ_parts q (ln_rh_q10 table s))

module _ (table : ℕ → ℤ) (ln : IsLnTable table) where
  -- On a temperature of the sensor's range the calculation succeeds, and the dew point is neither
  -- above the temperature nor below the sensor's range.
  pub dewpoint_calc_bounds :
      (t : ℤ) (rh : ℕ) (out : ℤ)
      → InRange t
      → let (e, dew) = dewpoint_calc_cd table t rh out in
        (e ≡ Err.ok) × (dew ≤ℤ t) × (temp_cd_min ≤ℤ dew)
  dewpoint_calc_bounds t rh out h =
      let b = clamp_dew_bounds t (quotient (exact_alpha table t rh)) h in
      rw (dewpoint_calc-magnus table ln t rh out h) (unfold magnus in (refl, b.0, b.1))

  -- At one temperature, more humidity never lowers the dew point.
  pub dewpoint_calc_mono :
      (t : ℤ) (r s : ℕ) (out : ℤ)
      → InRange t
      → r ≤ s
      → (dewpoint_calc_cd table t r out).1 ≤ℤ (dewpoint_calc_cd table t s out).1
  dewpoint_calc_mono t r s out h l =
      rw (dewpoint_calc-magnus table ln t r out h, dewpoint_calc-magnus table ln t s out h)
        (unfold magnus in
          clamp_dew_mono t (quotient (exact_alpha table t r)) (quotient (exact_alpha table t s)) (
            quotient_mono _ _ (exact_alpha-IsAlpha table ln t r h)
              (exact_alpha-IsAlpha table ln t s h) (exact_alpha_mono table ln t r s l)))

refused :
    (table : ℕ → ℤ) (t : ℤ) (rh : ℕ) (out : ℤ)
    → (t <ℤ temp_cd_min) ⊎ (temp_cd_max <ℤ t)
    → dewpoint_calc_cd table t rh out ≡ (Err.out_of_range, out)
unfolding dewpoint_calc_cd
refused table t rh out h = ground arith

range_cases : (t : ℤ) → InRange t ⊎ ((t <ℤ temp_cd_min) ⊎ (temp_cd_max <ℤ t))
range_cases t = ground arith

-- The calculation has two outcomes. On the sensor's range it succeeds with the Magnus formula, for
-- any humidity; on any other temperature it returns `ERR_OUT_OF_RANGE` and leaves the output as it
-- was.
pub dewpoint_calc_outcomes :
    (table : ℕ → ℤ) (ln : IsLnTable table) (t : ℤ) (rh : ℕ) (out : ℤ)
    → (InRange t × (dewpoint_calc_cd table t rh out ≡ (Err.ok, magnus table t rh)))
      ⊎ (((t <ℤ temp_cd_min) ⊎ (temp_cd_max <ℤ t))
          × (dewpoint_calc_cd table t rh out ≡ (Err.out_of_range, out)))
dewpoint_calc_outcomes table ln t rh out = elim (range_cases t) [
  | inl h ↦ inl (h, dewpoint_calc-magnus table ln t rh out h)
  | inr h ↦ inr (h, refused table t rh out h)
]
