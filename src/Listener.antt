-- ===== src/Listener.antt =====
-- rl_events.rs: the command-line listener.
pub mod Kinds
pub mod Options
pub mod Tokens
pub mod Choosing
pub mod Bounds
pub mod Printing
pub mod Stdin
pub mod Emitting
pub mod Strictness
mod Tests
pub mod Streaming
pub mod Reconnecting
pub mod Describing
