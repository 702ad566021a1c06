-- ===== src/Cli.antt =====
-- crates/sshe-cli: the arguments, what they ask for, the address book and the exit code.
pub mod Args
pub mod App
pub mod Output
pub mod Main
