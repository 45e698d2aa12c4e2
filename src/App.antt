-- ===== src/App.antt =====
-- src/app: the application over the core and the services.
pub mod Scheduler
pub mod Node
pub mod Mcu
pub mod Host
