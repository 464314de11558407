-- ===== src/Client.antt =====
-- client.rs: the client that reads events from the game's socket and writes commands to it.
pub mod Buffer
pub mod Stream
pub mod Chunks
pub mod Events
pub mod Waiting
pub mod Delivery
pub mod Malformed
pub mod Connection
pub mod Retrying
mod Tests
