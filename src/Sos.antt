-- ===== src/Sos.antt =====
-- sos.rs: the translation of events for overlays that speak SOS.
pub mod Players
pub mod Teams
pub mod Translate
pub mod Guids
pub mod Lookup
mod Tests
