-- ===== src/Node.antt =====
-- crates/sshe-node: one module for each module of the crate.
pub mod Error
pub mod History
pub mod Transport
pub mod Config
pub mod Dispatch
pub mod Server
pub mod Client
pub mod Sampling
pub mod Probe
pub mod Disk
pub mod Layout
pub mod Identity
pub mod Daemon
pub mod Scheduler
