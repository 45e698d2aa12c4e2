-- ===== src/Bsp.antt =====
-- The STM32F103: its registers, the UART with its DMA channels, the platform functions and the start-up.
pub mod Registers
pub mod Startup
pub mod Uart
pub mod Stm32
