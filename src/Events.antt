-- ===== src/Events.antt =====
-- events.rs: the events of the game, their wire form, and the lookups behind a player's fields.
pub mod Data
pub mod Wire
pub mod Effective
pub mod Meanings
pub mod Places
pub mod Fallbacks
pub mod Naming
pub mod RoundTrip
mod Tests
