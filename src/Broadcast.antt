-- ===== src/Broadcast.antt =====
-- sos_broadcast.rs: the server for overlays.
pub mod Options
mod Tests
