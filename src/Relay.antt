-- ===== src/Relay.antt =====
-- sos_relay.rs: the relay to an overlay's websocket.
pub mod Target
pub mod Options
pub mod Placing
mod Tests
