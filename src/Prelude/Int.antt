-- ===== src/Prelude/Int.antt =====
-- Signed integers over the native numbers, under the library's names (its ℤ stands on the unary ℕ),
-- with C's division, and the casts to and from the fixed widths.
use Prim.Native.Nat.{ℕ, zero, suc, ◌+◌, ◌-◌, ◌*◌, ◌/◌, ◌%◌, ◌^◌, ◌≤◌, ◌<◌}
use mathlib.Core.Path.{◌≡◌}
use mathlib.Core.Bool.{Bool}
use native.Mathlib.Omega.{arith}
use climate_node.Prelude.Tests.{ltb, leb, if◌then◌else◌}

-- `negsuc n` is -(n + 1).
pub data ℤ : Type 0 where
  pos : ℕ → ℤ
  negsuc : ℕ → ℤ

abbrev pub pos_part : ℤ → ℕ
pos_part (pos n) = n
pos_part (negsuc n) = 0

abbrev pub neg_part : ℤ → ℕ
neg_part (pos n) = 0
neg_part (negsuc n) = suc n

-- a - b, as an integer.
abbrev pub sub_ℕ : ℕ → ℕ → ℤ
sub_ℕ a b = if leb b a then pos (a - b) else negsuc (b - a - 1)

infixl 65 ◌+ℤ◌ ◌-ℤ◌
infixl 70 ◌*ℤ◌ ◌/ℤ◌
infix 50 ◌≤ℤ◌ ◌<ℤ◌
unfoldable pub ◌+ℤ◌ : ℤ → ℤ → ℤ
a +ℤ b = sub_ℕ (pos_part a + pos_part b) (neg_part a + neg_part b)

unfoldable pub ◌-ℤ◌ : ℤ → ℤ → ℤ
a -ℤ b = sub_ℕ (pos_part a + neg_part b) (neg_part a + pos_part b)

unfoldable pub ◌*ℤ◌ : ℤ → ℤ → ℤ
a *ℤ b =
    sub_ℕ (pos_part a * pos_part b + neg_part a * neg_part b)
      (pos_part a * neg_part b + neg_part a * pos_part b)

-- C's `/`: the quotient is rounded towards zero.
unfoldable pub ◌/ℤ◌ : ℤ → ℤ → ℤ
pos a /ℤ pos b = pos (a / b)
pos a /ℤ negsuc b = sub_ℕ 0 (a / suc b)
negsuc a /ℤ pos b = sub_ℕ 0 (suc a / b)
negsuc a /ℤ negsuc b = pos (suc a / suc b)

abbrev pub ◌≤ℤ◌ : ℤ → ℤ → Type 0
a ≤ℤ b = pos_part a + neg_part b ≤ pos_part b + neg_part a

abbrev pub ◌<ℤ◌ : ℤ → ℤ → Type 0
a <ℤ b = pos_part a + neg_part b < pos_part b + neg_part a

abbrev pub ltb_ℤ : ℤ → ℤ → Bool
ltb_ℤ a b = ltb (pos_part a + neg_part b) (pos_part b + neg_part a)

abbrev pub leb_ℤ : ℤ → ℤ → Bool
leb_ℤ a b = leb (pos_part a + neg_part b) (pos_part b + neg_part a)

-- One lemma for each operation lets `omega` work with the operations shut, at any depth.
pub +ℤ_parts :
    (a b : ℤ)
    → pos_part (a +ℤ b) + neg_part a + neg_part b ≡ neg_part (a +ℤ b) + pos_part a + pos_part b
unfolding ◌+ℤ◌
+ℤ_parts a b = ground arith

pub -ℤ_parts :
    (a b : ℤ)
    → pos_part (a -ℤ b) + neg_part a + pos_part b ≡ neg_part (a -ℤ b) + pos_part a + neg_part b
unfolding ◌-ℤ◌
-ℤ_parts a b = ground arith

pub eq_of_parts : (a b : ℤ) → pos_part a + neg_part b ≡ pos_part b + neg_part a → a ≡ b
eq_of_parts a b h = ground arith

pub ruleset int_laws = (arith, +ℤ_parts, -ℤ_parts, eq_of_parts)

-- The casts `(uint32_t)z` and `(uint16_t)z`.
abbrev pub to_u32 : ℤ → ℕ
to_u32 (pos n) = n % 2 ^ 32
to_u32 (negsuc n) = 2 ^ 32 - 1 - n % 2 ^ 32

abbrev pub to_u16 : ℤ → ℕ
to_u16 (pos n) = n % 2 ^ 16
to_u16 (negsuc n) = 2 ^ 16 - 1 - n % 2 ^ 16

-- The integers that 32 and 16 bits stand for in two's complement: the casts `(int32_t)w` and
-- `(int16_t)w` of an unsigned value in range.
abbrev pub signed32 : ℕ → ℤ
signed32 w = if ltb w (2 ^ 31) then pos w else negsuc (2 ^ 32 - 1 - w)

abbrev pub signed16 : ℕ → ℤ
signed16 w = if ltb w (2 ^ 15) then pos w else negsuc (2 ^ 16 - 1 - w)

-- `int32_t` arithmetic: the exact result, wrapped to 32 bits. C leaves a signed overflow undefined;
-- the theorems show where none happens.
unfoldable pub i32 : ℤ → ℤ
i32 z = signed32 (to_u32 z)

unfoldable pub i16 : ℤ → ℤ
i16 z = signed16 (to_u16 z)

abbrev pub InI32 : ℤ → Type 0
InI32 z = (pos_part z < 2 ^ 31) × (neg_part z ≤ 2 ^ 31)

abbrev pub InI16 : ℤ → Type 0
InI16 z = (pos_part z < 2 ^ 15) × (neg_part z ≤ 2 ^ 15)

-- Wrapping keeps what fits.
pub i32_id : (z : ℤ) → InI32 z → i32 z ≡ z
unfolding i32
i32_id (pos n) h = ground arith
i32_id (negsuc n) h = ground arith

pub i16_id : (z : ℤ) → InI16 z → i16 z ≡ z
unfolding i16
i16_id (pos n) h = ground arith
i16_id (negsuc n) h = ground arith

pub i32-InI32 : (z : ℤ) → InI32 (i32 z)
unfolding i32
i32-InI32 (pos n) = ground arith
i32-InI32 (negsuc n) = ground arith

-- Reading a register back: the cast to `uint16_t` and back to `int16_t` keeps an `int16_t`.
pub signed16-to_u16 : (z : ℤ) → InI16 z → signed16 (to_u16 z) ≡ z
signed16-to_u16 (pos n) h = ground arith
signed16-to_u16 (negsuc n) h = ground arith

pub to_u16-signed16 : (w : ℕ) → w < 2 ^ 16 → to_u16 (signed16 w) ≡ w
to_u16-signed16 w h = ground arith

-- From `-lo` to `hi`.
abbrev pub Within : ℕ → ℕ → ℤ → Type 0
Within lo hi z = (neg_part z ≤ lo) × (pos_part z ≤ hi)

pub +ℤ-Within :
    (a b c d : ℕ) (x y : ℤ) → Within a b x → Within c d y → Within (a + c) (b + d) (x +ℤ y)
unfolding ◌+ℤ◌
+ℤ-Within a b c d x y h k = ground arith

pub -ℤ-Within :
    (a b c d : ℕ) (x y : ℤ) → Within a b x → Within c d y → Within (a + d) (b + c) (x -ℤ y)
unfolding ◌-ℤ◌
-ℤ-Within a b c d x y h k = ground arith

-- The operations at known signs.
pub +ℤ_pos : (a b : ℕ) → pos a +ℤ pos b ≡ pos (a + b)
unfolding ◌+ℤ◌
+ℤ_pos a b = ground arith

pub *ℤ_pos : (a b : ℕ) → pos a *ℤ pos b ≡ pos (a * b)
unfolding ◌*ℤ◌
*ℤ_pos a b = ground arith

pub zero-ℤ_negsuc : (a : ℕ) → pos 0 -ℤ negsuc a ≡ pos (suc a)
unfolding ◌-ℤ◌
zero-ℤ_negsuc a = ground arith

pub zero-ℤ_pos : (a : ℕ) → pos 0 -ℤ pos a ≡ sub_ℕ 0 a
unfolding ◌-ℤ◌
zero-ℤ_pos a = ground arith

pub /ℤ_pos : (a b : ℕ) → pos a /ℤ pos b ≡ pos (a / b)
unfolding ◌/ℤ◌
/ℤ_pos a b = ground arith

pub i32_pos : (a : ℕ) → a < 2 ^ 31 → i32 (pos a) ≡ pos a
i32_pos a h = i32_id (pos a) (omega arith)

pub i32_neg : (a : ℕ) → a ≤ 2 ^ 31 → i32 (sub_ℕ 0 a) ≡ sub_ℕ 0 a
i32_neg a h = i32_id (sub_ℕ 0 a) (ground arith)

pub neg-*ℤ_pos : (a b : ℕ) → sub_ℕ 0 a *ℤ pos b ≡ sub_ℕ 0 (a * b)
unfolding ◌*ℤ◌
neg-*ℤ_pos zero b = ground arith
neg-*ℤ_pos (suc a) b = ground arith

pub between-Within :
    (lo hi : ℕ) (x y z : ℤ) → x ≤ℤ z → z ≤ℤ y → Within lo hi x → Within lo hi y → Within lo hi z
between-Within lo hi x y z p q h k = ground arith

-- Scaling by a number that is not negative.
pub pos-*ℤ-Within : (c lo hi : ℕ) (z : ℤ) → Within lo hi z → Within (c * lo) (c * hi) (pos c *ℤ z)
unfolding ◌*ℤ◌
pos-*ℤ-Within c lo hi (pos a) h = let m : c * a ≤ c * hi = grind arith in ground arith
pos-*ℤ-Within c lo hi (negsuc a) h = let m : c * suc a ≤ c * lo = grind arith in ground arith

pub pos-*ℤ_parts :
    (c : ℕ) (z : ℤ)
    → (pos_part (pos c *ℤ z) ≡ c * pos_part z) × (neg_part (pos c *ℤ z) ≡ c * neg_part z)
unfolding ◌*ℤ◌
pos-*ℤ_parts c (pos a) = ground arith
pos-*ℤ_parts c (negsuc a) = ground arith
