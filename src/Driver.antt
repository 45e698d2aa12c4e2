-- ===== src/Driver.antt =====
-- The sensor drivers: src/driver and the I2C bus below them.
pub mod I2c
pub mod Sht31
pub mod Mock
pub mod Stub
