-- ===== src/Util.antt =====
-- src/util.
pub mod Obfuscate
pub mod RollingSampler
