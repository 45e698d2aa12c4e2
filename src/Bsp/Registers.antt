-- ===== src/Bsp/Registers.antt =====
-- The memory-mapped registers of the microcontroller, which src/bsp/stm32f1 and src/platform/stm32f1 read
-- and write through `volatile` pointers. The hardware is not part of the program: it is a parameter, with
-- what the reference manual says of a register as a hypothesis.
use climate_node.Prelude.{ℕ, ◌-◌, ◌≡◌, ◌≢◌, Bool, not, shr, shl, low_bits, ◌==◌}
use Prim.Native.Nat.{bit_or}

-- A read gives the register's value and may change the hardware, as reading a data register does.
pub record Bus (H : Type 0) : Type 0 where
  pub load : ℕ → H → ℕ × H
  pub store : ℕ → ℕ → H → H

-- The low `width` bits of a register hold what is written to them, whatever else is read or written.
pub record IsHeld {H : Type 0} (bus : Bus H) (addr width : ℕ) : Type 0 where
  pub same :
      (v : ℕ) (h : H) → low_bits (bus.load addr (bus.store addr v h)).0 width ≡ low_bits v width
  pub other :
      (a v : ℕ) (h : H)
      → a ≢ addr
      → low_bits (bus.load addr (bus.store a v h)).0 width ≡ low_bits (bus.load addr h).0 width
  pub loaded :
      (a : ℕ) (h : H)
      → low_bits (bus.load addr (bus.load a h).1).0 width ≡ low_bits (bus.load addr h).0 width

-- `(v & (1UL << k)) != 0`, `v & ~(1UL << k)`, and `v & ~(mask << k)` for a mask of `width` ones.
abbrev pub has_bit : ℕ → ℕ → Bool
has_bit v k = not (low_bits (shr v k) 1 == 0)

abbrev pub clear_field : ℕ → ℕ → ℕ → ℕ
clear_field v k width = v - shl (low_bits (shr v k) width) k

module _ {H : Type 0} (bus : Bus H) where
  -- `REG |= mask`
  unfoldable pub or_reg : ℕ → ℕ → H → H
  or_reg addr mask h = let (v, h') = bus.load addr h in bus.store addr (bit_or v mask) h'

  -- `REG &= ~(1UL << k)`
  unfoldable pub clear_reg : ℕ → ℕ → H → H
  clear_reg addr k h = let (v, h') = bus.load addr h in bus.store addr (clear_field v k 1) h'
