-- ===== src/Guard.antt =====
-- guard/: the monitoring check.
pub mod Types
pub mod Sysfs
pub mod Tally
pub mod Eval
pub mod Report
pub mod Options
pub mod Main
pub mod Examples
pub mod Runs
