-- ===== src/Mock.antt =====
-- mock_broadcast.rs: the server of mock events.
pub mod Random
pub mod Randomizer
pub mod Payload
pub mod Pool
pub mod Seen
pub mod Staying
pub mod Rounds
pub mod Scenario
pub mod Options
pub mod Selecting
mod Tests
pub mod Sending
