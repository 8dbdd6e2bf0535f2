-- ===== src/Kernel.antt =====
-- The kernel's own services, QKernel/.
pub mod Tasks
pub mod Scheduler
