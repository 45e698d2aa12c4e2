-- ===== src/Tests/Table.antt =====
-- The table that tools/gen_dewpoint_lut.py writes into the build, as a concrete instance of what the
-- theorems on the dew point assume of it.
use climate_node.Prelude.{
  ℕ, zero, suc, ◌+◌, ◌≤◌, ◌<◌, ◌≡◌, refl, arith, Bool, true, false, ◌&&◌, List, [], ◌∷◌, ℤ, leb,
  sub_ℕ, get_or, Within, ◌≤ℤ◌, ◌⊎◌, inl, inr,
}
use climate_node.Core.Dewpoint.{IsLnTable}

-- 1024 times the logarithm of each per cent from 0 to 100, without its minus sign.
unfoldable pub magnitudes : List ℕ
magnitudes =
    9431 ∷ 4716 ∷ 4006 ∷ 3591 ∷ 3296 ∷ 3068 ∷ 2881 ∷ 2723 ∷ 2586 ∷ 2466 ∷ 2358 ∷ 2260 ∷ 2171 ∷ 2089
    ∷ 2013 ∷ 1943 ∷ 1877 ∷ 1814 ∷ 1756 ∷ 1701 ∷ 1648 ∷ 1598 ∷ 1550 ∷ 1505 ∷ 1461 ∷ 1420 ∷ 1379
    ∷ 1341 ∷ 1304 ∷ 1268 ∷ 1233 ∷ 1199 ∷ 1167 ∷ 1135 ∷ 1105 ∷ 1075 ∷ 1046 ∷ 1018 ∷ 991 ∷ 964 ∷ 938
    ∷ 913 ∷ 888 ∷ 864 ∷ 841 ∷ 818 ∷ 795 ∷ 773 ∷ 752 ∷ 730 ∷ 710 ∷ 690 ∷ 670 ∷ 650 ∷ 631 ∷ 612 ∷ 594
    ∷ 576 ∷ 558 ∷ 540 ∷ 523 ∷ 506 ∷ 490 ∷ 473 ∷ 457 ∷ 441 ∷ 425 ∷ 410 ∷ 395 ∷ 380 ∷ 365 ∷ 351 ∷ 336
    ∷ 322 ∷ 308 ∷ 295 ∷ 281 ∷ 268 ∷ 254 ∷ 241 ∷ 228 ∷ 216 ∷ 203 ∷ 191 ∷ 179 ∷ 166 ∷ 154 ∷ 143 ∷ 131
    ∷ 119 ∷ 108 ∷ 97 ∷ 85 ∷ 74 ∷ 63 ∷ 53 ∷ 42 ∷ 31 ∷ 21 ∷ 10 ∷ 0 ∷ []

abbrev pub ln_table : ℕ → ℤ
ln_table p = sub_ℕ 0 (get_or magnitudes p 0)

abbrev row_is_good : ℕ → Bool
row_is_good k =
    leb (get_or magnitudes (k + 1) 0) 4716
    && leb (get_or magnitudes (k + 2) 0) (get_or magnitudes (k + 1) 0)

abbrev all_below : ℕ → (ℕ → Bool) → Bool
all_below zero f = true
all_below (suc n) f = f n && all_below n f

last : (k n : ℕ) → k < suc n → (k ≡ n) ⊎ (k < n)
last k n h = ground arith

and_split : (a b : Bool) → (a && b) ≡ true → (a ≡ true) × (b ≡ true)
and_split true b h = (refl, h)
and_split false b h = absurd (ground arith)

all_below_lem : (n : ℕ) (f : ℕ → Bool) (k : ℕ) → all_below n f ≡ true → k < n → f k ≡ true
all_below_lem zero f k h l = absurd (omega arith)
all_below_lem (suc n) f k h l =
    let (first, rest) = and_split (f n) (all_below n f) h in
    elim (last k n l) [ inl e ↦ rw e first | inr s ↦ all_below_lem n f k rest s ]

all_rows : all_below 100 row_is_good ≡ true
unfolding magnitudes
all_rows = refl

row :
    (k : ℕ)
    → k < 100
    → (get_or magnitudes (k + 1) 0 ≤ 4716)
      × (get_or magnitudes (k + 2) 0 ≤ get_or magnitudes (k + 1) 0)
row k h =
    let good : row_is_good k ≡ true = all_below_lem 100 row_is_good k all_rows h in ground arith

pub ln_table-IsLnTable : IsLnTable ln_table
ln_table-IsLnTable = record { ranged = ranged; rising = rising }
  where
    ranged : (p : ℕ) → 0 < p → p ≤ 100 → Within 4716 0 (ln_table p)
    ranged zero h k = absurd (omega arith)
    ranged (suc p) h k =
        let (low, up) = row p (omega arith) in
        let e : suc p ≡ p + 1 = omega arith in rw e (ground arith)

    rising : (p : ℕ) → 0 < p → p < 100 → ln_table p ≤ℤ ln_table (p + 1)
    rising zero h k = absurd (omega arith)
    rising (suc p) h k =
        let (low, up) = row p (omega arith) in
        let e : suc p ≡ p + 1 = omega arith in
        let d : suc p + 1 ≡ p + 2 = omega arith in rw (d, e) (ground arith)
