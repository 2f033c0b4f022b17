-- ===== src/SessionStore.antt =====
-- lib/sessionStore.js: the store of the HTTP sessions of the server.
pub mod Defs
pub mod Mirror
pub mod Bounds
pub mod Reads
mod Tests
