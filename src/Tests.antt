-- ===== src/Tests.antt =====
-- Tests and examples: the table of logarithms, and each theorem at concrete data.
mod Table
mod Core
mod Service
mod App
mod Bsp
mod Mcu
