-- ===== src/Gpu.antt =====
-- The GPU module, src/gpu.
pub mod Sweep
pub mod Contention
pub mod Factory
pub mod Worker
pub mod Devices
pub mod Manager
pub mod Driver
pub mod Nvidia
pub mod Intel
pub mod OpenCl
