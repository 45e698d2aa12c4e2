-- ===== src/Service.antt =====
-- include/service and src/service: the Modbus codec and its registers.
pub mod Modbus
pub mod ModbusRegs
pub mod Storage
pub mod Logger
pub mod ModbusServer
