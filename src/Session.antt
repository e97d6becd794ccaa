-- ===== src/Session.antt =====
-- internal/core/session: the shared stream Session and its bounded histories.
pub mod Stream
pub mod Receive
pub mod Activity
pub mod Events
pub mod Lifecycle
pub mod Manager
