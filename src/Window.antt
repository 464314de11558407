-- ===== src/Window.antt =====
-- sos_broadcast_gui.rs: the window of the broadcaster.
pub mod App
pub mod Sound
pub mod Stopping
mod Tests
