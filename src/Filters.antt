-- ===== src/Filters.antt =====
-- filters.rs: selecting events, following one player, and the signals of a match.
pub mod Kind
pub mod Matching
pub mod Cast
pub mod Selecting
pub mod Tracker
pub mod Following
mod Tests
