-- ===== src/Driver/I2c.antt =====
-- include/bsp/i2c.h and src/core/i2c_stubs.c: the I2C bus as the sensor drivers see it. A bus is the
-- two transfers on its state `B`; the weak stubs are the bus of a program that links no other.
use climate_node.Prelude.{ℕ, List, []}
use climate_node.Core.Types.{Err}

-- The device, the register, the bytes to write or the number of bytes to read, which a read gives.
pub record I2cOps (B : Type 0) : Type 0 where
  pub mem_write : ℕ → ℕ → List ℕ → B → Err × B
  pub mem_read : ℕ → ℕ → ℕ → B → Err × List ℕ × B

module _ {B : Type 0} where
  unfoldable pub i2c_init : B → Err × B
  i2c_init b = (Err.not_found, b)

  unfoldable pub i2c_mem_write : ℕ → ℕ → List ℕ → B → Err × B
  i2c_mem_write dev_addr reg_addr bytes b = (Err.comm, b)

  unfoldable pub i2c_mem_read : ℕ → ℕ → ℕ → B → Err × List ℕ × B
  i2c_mem_read dev_addr reg_addr len b = (Err.comm, [], b)

  abbrev pub no_bus : I2cOps B
  no_bus = record { mem_write = i2c_mem_write; mem_read = i2c_mem_read }
