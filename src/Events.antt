-- ===== src/Events.antt =====
-- The two event classes that the rest of the system is built on.
pub mod Handler
pub mod Indexed
pub mod Emitter
