-- ===== src/Core.antt =====
-- src/core: the portable control logic.
pub mod Types
pub mod Filter
pub mod Dewpoint
pub mod Controller
pub mod Diagnostics
