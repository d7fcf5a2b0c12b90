-- ===== src/Memory.antt =====
-- The memory module, src/memory.
pub mod Block
pub mod Manager
mod Tests
