-- ===== src/Core/Filter/Mean.antt =====
-- The sum and the mean of a list of readings, and the range that they keep.
use native.Mathlib.Nat.{div-le_of_le-mul}
use climate_node.Prelude.{
  ℕ, suc, ◌*◌, ◌/◌, ◌≤◌, ◌<◌, ◌≡◌, List, [], ◌∷◌, ◌++◌, arith, ℤ, pos, negsuc, ◌+ℤ◌, ◌/ℤ◌, int_laws,
  +ℤ-Within, Within, length,
}

unfoldable pub total : List ℤ → ℤ
total [] = pos 0
total (x ∷ xs) = x +ℤ total xs

pub total-append : (xs : List ℤ) (x : ℤ) → total (xs ++ (x ∷ [])) ≡ total xs +ℤ x
unfolding total
total-append [] x = omega int_laws
total-append (y ∷ xs) x = rw (total-append xs x) (omega int_laws)

abbrev pub AllWithin : ℕ → ℕ → List ℤ → Type 0
AllWithin lo hi [] = Unit {0}
AllWithin lo hi (x ∷ xs) = Within lo hi x × AllWithin lo hi xs

pub total-Within :
    (lo hi : ℕ) (xs : List ℤ)
    → AllWithin lo hi xs
    → Within (length xs * lo) (length xs * hi) (total xs)
unfolding total
total-Within lo hi [] h = omega arith
total-Within lo hi (x ∷ xs) h =
    let rest =
      +ℤ-Within lo hi (length xs * lo) (length xs * hi) x (total xs) h.0
        (total-Within lo hi xs h.1) in
    (grind arith, grind arith)

pub AllWithin-append :
    (lo hi : ℕ) (xs : List ℤ) (x : ℤ)
    → AllWithin lo hi xs
    → Within lo hi x
    → AllWithin lo hi (xs ++ (x ∷ []))
AllWithin-append lo hi [] x h k = (k, tt)
AllWithin-append lo hi (y ∷ xs) x h k = (h.0, AllWithin-append lo hi xs x h.1 k)

-- A mean, rounded towards zero, stays in the range of what it is taken of.
pub mean-Within :
    (lo hi : ℕ) (n : ℕ) (z : ℤ) → 0 < n → Within (n * lo) (n * hi) z → Within lo hi (z /ℤ pos n)
unfolding ◌/ℤ◌
mean-Within lo hi n (pos a) p h = (omega arith, div-le_of_le-mul n h.1)
mean-Within lo hi n (negsuc a) p h =
    let small : suc a / n ≤ lo = div-le_of_le-mul n h.0 in ground arith
