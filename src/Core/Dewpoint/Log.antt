-- ===== src/Core/Dewpoint/Log.antt =====
-- `ln_rh_q10` stays between two neighbouring entries of the table, and no step of the interpolation
-- wraps.
use climate_node.Prelude.{
  ℕ, zero, suc, ◌+◌, ◌-◌, ◌*◌, ◌/◌, ◌%◌, ◌^◌, ◌≤◌, ◌<◌, ◌≡◌, subst, arith, ℤ, pos, neg_part, ◌+ℤ◌,
  ◌-ℤ◌, ◌≤ℤ◌, i32, i32_id, i32_pos, *ℤ_pos, /ℤ_pos, +ℤ_parts, Within, +ℤ-Within, between-Within,
  Bool-cases, inl, inr, ltb, if◌then◌else◌,
}
use native.Mathlib.Nat.{div-le_of_le-mul}
use native.Mathlib.Decide.{dec_lt}
use climate_node.Core.Dewpoint.{IsLnTable, clamp_rh, interpolate, ln_rh_q10}

-- The rise between two entries that lie in the table's range.
rise :
    (y0 y1 : ℤ)
    → Within 4716 0 y0
    → Within 4716 0 y1
    → y0 ≤ℤ y1
    → i32 (y1 -ℤ y0) ≡ pos (neg_part y0 - neg_part y1)
unfolding ◌-ℤ◌
rise y0 y1 h k l =
    let e : y1 -ℤ y0 ≡ pos (neg_part y0 - neg_part y1) = ground arith in
    rw e (i32_pos _ (omega arith))

part_le : (d frac : ℕ) → frac < 100 → d * frac / 100 ≤ d
part_le d frac h = div-le_of_le-mul 100 (grind arith)

part_small : (d frac : ℕ) → d ≤ 4716 → frac < 100 → d * frac < 2 ^ 31
part_small d frac h k = let m : d * frac ≤ 4716 * 100 = grind arith in omega arith

-- The interpolated value, exactly.
pub interpolate_lem :
    (y0 y1 : ℤ) (frac : ℕ)
    → Within 4716 0 y0
    → Within 4716 0 y1
    → y0 ≤ℤ y1
    → frac < 100
    → interpolate y0 y1 frac ≡ y0 +ℤ pos ((neg_part y0 - neg_part y1) * frac / 100)
unfolding interpolate
interpolate_lem y0 y1 frac h k l f =
    let d = neg_part y0 - neg_part y1 in
    let q = part_le d frac f in
    rw
      (
        rise y0 y1 h k l,
        *ℤ_pos d frac,
        i32_pos (d * frac) (part_small d frac (omega arith) f),
        /ℤ_pos (d * frac) 100,
        i32_pos (d * frac / 100) (omega arith),
      )
      (i32_id _ (omega (arith, +ℤ-Within 4716 0 0 4716 y0 (pos (d * frac / 100)) h (omega arith))))

pub interpolate_between :
    (y0 y1 : ℤ) (frac : ℕ)
    → Within 4716 0 y0
    → Within 4716 0 y1
    → y0 ≤ℤ y1
    → frac < 100
    → (y0 ≤ℤ interpolate y0 y1 frac) × (interpolate y0 y1 frac ≤ℤ y1)
interpolate_between y0 y1 frac h k l f =
    let d = neg_part y0 - neg_part y1 in
    let q = part_le d frac f in
    let e = +ℤ_parts y0 (pos (d * frac / 100)) in
    rw (interpolate_lem y0 y1 frac h k l f) (omega arith, omega arith)

clamp_rh_range : (rh : ℕ) → (100 ≤ clamp_rh rh) × (clamp_rh rh ≤ 10000)
unfolding clamp_rh
clamp_rh_range rh = ground arith

clamp_rh_mono : (a b : ℕ) → a ≤ b → clamp_rh a ≤ clamp_rh b
unfolding clamp_rh
clamp_rh_mono a b h = ground arith

interpolate_mono :
    (y0 y1 : ℤ) (f g : ℕ)
    → Within 4716 0 y0
    → Within 4716 0 y1
    → y0 ≤ℤ y1
    → f ≤ g
    → g < 100
    → interpolate y0 y1 f ≤ℤ interpolate y0 y1 g
interpolate_mono y0 y1 f g h k l fg gb =
    let d = neg_part y0 - neg_part y1 in
    let m : d * f ≤ d * g = grind arith in
    let e = +ℤ_parts y0 (pos (d * f / 100)) in
    let e' = +ℤ_parts y0 (pos (d * g / 100)) in
    rw (interpolate_lem y0 y1 f h k l (omega arith), interpolate_lem y0 y1 g h k l gb) (omega arith)

module _ (table : ℕ → ℤ) where
  -- The entry above `p`, the last one being above itself.
  abbrev above : ℕ → ℤ
  above p = if ltb p 100 then table (p + 1) else table p

  abbrev at_rh : ℕ → ℤ
  at_rh r = interpolate (table (r / 100)) (above (r / 100)) (r % 100)

  module _ (t : IsLnTable table) where
    above-Within : (p : ℕ) → 0 < p → p ≤ 100 → Within 4716 0 (above p)
    above-Within p h k = elim (Bool-cases (ltb p 100)) [
      | inl e ↦ rw e (t.ranged (p + 1) (omega arith) (ground arith))
      | inr e ↦ rw e (t.ranged p h k)
    ]

    le-above : (p : ℕ) → 0 < p → p ≤ 100 → table p ≤ℤ above p
    le-above p h k = elim (Bool-cases (ltb p 100)) [
      | inl e ↦ rw e (t.rising p h (ground arith))
      | inr e ↦ rw e (omega arith)
    ]

    table_mono : (p k : ℕ) → 0 < p → p + k ≤ 100 → table p ≤ℤ table (p + k)
    table_mono p zero h b = let e : p + 0 ≡ p = omega arith in rw e (omega arith)
    table_mono p (suc k) h b =
        let e : p + suc k ≡ p + k + 1 = omega arith in
        rw e (
          omega
            (arith, table_mono p k h (omega arith), t.rising (p + k) (omega arith) (omega arith)))

    at_rh_between :
        (r : ℕ) → 100 ≤ r → r ≤ 10000 → (table (r / 100) ≤ℤ at_rh r) × (at_rh r ≤ℤ above (r / 100))
    at_rh_between r h k =
        let p = r / 100 in
        interpolate_between (table p) (above p) (r % 100) (t.ranged p (omega arith) (omega arith))
          (above-Within p (omega arith) (omega arith)) (le-above p (omega arith) (omega arith))
          (omega arith)

    at_rh_mono : (r s : ℕ) → 100 ≤ r → r ≤ s → s ≤ 10000 → at_rh r ≤ℤ at_rh s
    at_rh_mono r s h rs k = elim (dec_lt (r / 100) (s / 100)) [
      | yes l ↦
          let p = r / 100 in
          let q = s / 100 in
          let up : above p ≡ table (p + 1) = ground arith in
          let e : p + 1 + (q - (p + 1)) ≡ q = omega arith in
          let m : table (p + 1) ≤ℤ table q =
            rw e at (table_mono (p + 1) (q - (p + 1)) (omega arith) (omega arith)) in
          let a : at_rh r ≤ℤ table (p + 1) =
            subst (λ z. at_rh r ≤ℤ z) up (at_rh_between r h (omega arith)).1 in
          let b = (at_rh_between s (omega arith) k).0 in omega arith
      | no l ↦
          let p = r / 100 in
          let e : s / 100 ≡ p = omega arith in
          rw e (
            interpolate_mono (table p) (above p) (r % 100) (s % 100)
              (t.ranged p (omega arith) (omega arith)) (above-Within p (omega arith) (omega arith))
              (le-above p (omega arith) (omega arith)) (omega arith) (omega arith))
    ]

    at_rh-Within : (r : ℕ) → 100 ≤ r → r ≤ 10000 → Within 4716 0 (at_rh r)
    at_rh-Within r h k =
        let p = r / 100 in
        let b = at_rh_between r h k in
        between-Within 4716 0 (table p) (above p) (at_rh r) b.0 b.1
          (t.ranged p (omega arith) (omega arith)) (above-Within p (omega arith) (omega arith))

    -- The logarithm lies in the table's range, whatever the humidity.
    pub ln_rh-Within : (rh : ℕ) → Within 4716 0 (ln_rh_q10 table rh)
    unfolding ln_rh_q10
    ln_rh-Within rh = at_rh-Within (clamp_rh rh) (clamp_rh_range rh).0 (clamp_rh_range rh).1

    -- More humidity never lowers the logarithm.
    pub ln_rh_mono : (a b : ℕ) → a ≤ b → ln_rh_q10 table a ≤ℤ ln_rh_q10 table b
    unfolding ln_rh_q10
    ln_rh_mono a b h =
        at_rh_mono (clamp_rh a) (clamp_rh b) (clamp_rh_range a).0 (clamp_rh_mono a b h)
          (clamp_rh_range b).1
