-- ===== src/Core/Dewpoint/Round.antt =====
-- `div_round_pos_den` on values where no 32-bit sum wraps: the quotient rounded to the nearest
-- integer, halves away from zero.
use climate_node.Prelude.{
  ℕ, suc, ◌+◌, ◌*◌, ◌/◌, ◌%◌, ◌^◌, ◌≤◌, ◌<◌, ◌≡◌, arith, ℤ, pos, negsuc, sub_ℕ, pos_part, neg_part,
  ◌-ℤ◌, ◌*ℤ◌, i32_pos, i32_neg, +ℤ_pos, *ℤ_pos, neg-*ℤ_pos, /ℤ_pos, zero-ℤ_negsuc, zero-ℤ_pos,
  Within,
}
use native.Mathlib.Nat.{div-le_of_le-mul, div-le_self, div-add-mod', mod-lt}
use climate_node.Core.Dewpoint.{div_round_pos_den}

-- The exact rounded quotient.
unfoldable pub round_div : ℤ → ℕ → ℤ
round_div (pos a) m = pos ((a + m / 2) / m)
round_div (negsuc a) m = sub_ℕ 0 ((suc a + m / 2) / m)

pub div_round-eq-round_div :
    (z : ℤ) (m : ℕ)
    → 0 < m
    → m ≤ 2 ^ 30
    → Within (2 ^ 30) (2 ^ 30) z
    → div_round_pos_den z (pos m) ≡ round_div z m
unfolding div_round_pos_den round_div
div_round-eq-round_div (pos a) m p q h =
    let small : (a + m / 2) / m ≤ a + m / 2 = div-le_self (a + m / 2) m in
    rw
      (
        /ℤ_pos m 2,
        i32_pos (m / 2) (omega arith),
        +ℤ_pos a (m / 2),
        i32_pos (a + m / 2) (omega arith),
        /ℤ_pos (a + m / 2) m,
        i32_pos ((a + m / 2) / m) (omega arith),
      )
      (ground arith)
div_round-eq-round_div (negsuc a) m p q h =
    let small : (suc a + m / 2) / m ≤ suc a + m / 2 = div-le_self (suc a + m / 2) m in
    rw
      (
        /ℤ_pos m 2,
        i32_pos (m / 2) (omega arith),
        zero-ℤ_negsuc a,
        i32_pos (suc a) (omega arith),
        +ℤ_pos (suc a) (m / 2),
        i32_pos (suc a + m / 2) (omega arith),
        /ℤ_pos (suc a + m / 2) m,
        i32_pos ((suc a + m / 2) / m) (omega arith),
        zero-ℤ_pos ((suc a + m / 2) / m),
      )
      (ground (arith, i32_neg ((suc a + m / 2) / m)))

near_pos : (a n r m : ℕ) → n + r ≡ a + m / 2 → r < m → Within (m / 2) (m / 2) (pos a -ℤ pos n)
unfolding ◌-ℤ◌
near_pos a n r m e l = ground arith

near_neg :
    (a n r m : ℕ) → n + r ≡ suc a + m / 2 → r < m → Within (m / 2) (m / 2) (negsuc a -ℤ sub_ℕ 0 n)
unfolding ◌-ℤ◌
near_neg a n r m e l = ground arith

-- The rounded quotient is within half a unit of the exact one.
pub round_div_nearest :
    (z : ℤ) (m : ℕ) → 0 < m → Within (m / 2) (m / 2) (z -ℤ round_div z m *ℤ pos m)
unfolding round_div
round_div_nearest (pos a) m p =
    let k = a + m / 2 in
    rw (*ℤ_pos (k / m) m) (near_pos a (k / m * m) (k % m) m (div-add-mod' k m) (mod-lt k p))
round_div_nearest (negsuc a) m p =
    let k = suc a + m / 2 in
    rw (neg-*ℤ_pos (k / m) m) (near_neg a (k / m * m) (k % m) m (div-add-mod' k m) (mod-lt k p))

-- Numerators in proportion to the denominator bound the quotient.
pub round_div-Within :
    (z : ℤ) (m lo hi : ℕ)
    → neg_part z + m / 2 ≤ m * lo
    → pos_part z + m / 2 ≤ m * hi
    → Within lo hi (round_div z m)
unfolding round_div
round_div-Within (pos a) m lo hi h k = (omega arith, div-le_of_le-mul m k)
round_div-Within (negsuc a) m lo hi h k =
    let small : (suc a + m / 2) / m ≤ lo = div-le_of_le-mul m h in ground arith
