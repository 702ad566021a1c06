-- ===== src/Core.antt =====
-- crates/sshe-core: errors, and the probes and commands that run on this machine.
pub mod Error
pub mod Config
pub mod Exec
pub mod Probe
