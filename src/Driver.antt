-- ===== src/Driver.antt =====
-- driver/: the kernel module.

pub mod Regs
pub mod Detect
pub mod Cache
pub mod Labels
pub mod Probe
pub mod Lifecycle
pub mod Examples
