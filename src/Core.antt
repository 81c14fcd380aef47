-- ===== src/Core.antt =====
-- core/: pipes, the event loop, sessions.
pub mod Pipe
pub mod Session
pub mod Loop
