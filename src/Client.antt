-- ===== src/Client.antt =====
-- client.py: `TeensyIO`, by its parts.
pub mod Outbox
pub mod Inbox
pub mod Session
pub mod Lifecycle
pub mod Threads
