-- ===== src/Cpu.antt =====
-- The CPU module, src/cpu.
pub mod Workers
pub mod Start
pub mod Stat
pub mod Schedule
pub mod Calibration
pub mod Controller
pub mod Points
mod Tests
