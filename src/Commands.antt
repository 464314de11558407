-- ===== src/Commands.antt =====
-- commands.rs: the commands to the game, their validation and their wire form.
pub mod Defs
pub mod Wire
pub mod Camera
pub mod Validity
pub mod Reading
pub mod RoundTrip
mod Tests
