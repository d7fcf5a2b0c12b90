-- ===== src/Gpu/Contention.antt =====
-- src/gpu/contention: seeing the other processes that use a device.
pub mod Gate
pub mod Monitor
pub mod Scan
pub mod Pci
pub mod Records
pub mod Fdinfo
pub mod LinuxFs
pub mod Kfd
pub mod Nvml
mod Tests
