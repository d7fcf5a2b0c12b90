-- ===== src/Core.antt =====
-- src/core.
pub mod Options
pub mod Signals
pub mod Runtime
