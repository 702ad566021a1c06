-- ===== src/Ssher.antt =====
-- crates/ssher: the address selector that OpenSSH runs as a ProxyCommand.
pub mod Error
pub mod Config
pub mod Cache
pub mod Selector
pub mod Proxy
pub mod App
pub mod Main
