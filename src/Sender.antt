-- ===== src/Sender.antt =====
-- rl_command.rs: the tool that sends one command.
pub mod Options
pub mod Sound
pub mod Echo
mod Tests
