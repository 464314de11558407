-- ===== src/Config.antt =====
-- config.rs: the configuration of a connection, kept in an INI file.
pub mod Ini
pub mod Plain
pub mod Formatted
pub mod Breaking
pub mod Upserting
pub mod Found
pub mod Discover
pub mod Panics
pub mod Run
pub mod Prepare
pub mod Settling
pub mod Prepared
mod Tests
